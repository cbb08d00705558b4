-- ===== src/Memory.antt =====
-- The heap on which `ReceiveMessageData` structs live, and commands over it. Each function of the
-- source holds the mutex of the list that it works on, so a command runs without interruption.
use rmw_zenoh_pico.Prelude.{
  ℕ, ◌≡◌, ◌≢◌, refl, Bytes, Option, none, some, List, [], ◌∷◌, arith, ◌==◌, if◌then◌else◌,
}
use rmw_zenoh_pico.Message.{ReceiveMessageData}

abbrev pub Ptr : Type 0
Ptr = ℕ

abbrev pub null : Ptr
null = 0

-- A struct in memory: its `next` pointer, and the other fields.
pub record Cell : Type 0 where
  pub next : Ptr
  pub msg : ReceiveMessageData

-- What a function gives back to the allocator or to zenoh, besides the struct.
pub data Released : Type 0 where
  payload : Bytes → Released
  gid : Bytes → Released
  keyexpr : Bytes → Released
  query_rc : ℕ → Released

pub record Memory : Type 0 where
  pub cell : Ptr → Option Cell
  pub released : List Released

-- `fault` is an access through NULL or through a pointer to no struct.
pub data Run (A : Type 0) : Type 0 where
  ok : A → Memory → Run A
  fault : Run A
  out_of_fuel : Run A

abbrev pub Cmd : Type 0 → Type 0
Cmd A = Memory → Run A

abbrev pub pure : {A : Type 0} → A → Cmd A
pure = ok

module _ {A B : Type 0} where
  abbrev pub continue : Run A → (A → Cmd B) → Run B
  continue (ok a s) k = k a s
  continue fault k = fault
  continue out_of_fuel k = out_of_fuel

  infixl 5 ◌>>=◌ ◌>>◌
  abbrev pub ◌>>=◌ : Cmd A → (A → Cmd B) → Cmd B
  ◌>>=◌ m k s = continue (m s) k

  abbrev pub ◌>>◌ : Cmd A → Cmd B → Cmd B
  ◌>>◌ m k s = continue (m s) (λ _. k)

abbrev pub upd : (Ptr → Option Cell) → Ptr → Option Cell → Ptr → Option Cell
upd f p c a = if a == p then c else f a

abbrev pub write : Memory → Ptr → Option Cell → Memory
write s p c = record s { cell = upd s.cell p c }

-- The raw store: `some` fills the address, `none` gives it back.
abbrev pub put : Ptr → Option Cell → Cmd (Unit {0})
put p c s = ok tt (write s p c)

-- `*p`
unfoldable pub load : Ptr → Cmd Cell
load p s = if p == null then fault else elim (s.cell p) [ none ↦ fault | some c ↦ ok c s ]

-- `p->next = q`
unfoldable pub set_next : Ptr → Ptr → Cmd (Unit {0})
unfolding load
set_next p q = do c ← load p; put p (some (record c { next = q }))

abbrev pub give_back : List Released → Cmd (Unit {0})
give_back [] s = ok tt s
give_back (r ∷ rs) s = give_back rs (record s { released = r ∷ s.released })

-- A struct at `p` that is `c`.
abbrev pub Holds : Memory → Ptr → Cell → Type 0
Holds s p c = (p ≢ null) × (s.cell p ≡ some c)

pub load-ok : (s : Memory) (p : Ptr) {c : Cell} → Holds s p c → load p s ≡ ok c s
unfolding load
load-ok s p h = ground (arith, h.0, h.1)

pub set_next-ok :
    (s : Memory) (p q : Ptr) {c : Cell}
    → Holds s p c
    → set_next p q s ≡ ok tt (write s p (some (record c { next = q })))
unfolding set_next
set_next-ok s p q h = rw (load-ok s p h)

pub load-null : (s : Memory) → load null s ≡ fault
unfolding load
load-null s = refl

pub load_freed : (s : Memory) (p : Ptr) → s.cell p ≡ none → load p s ≡ fault
unfolding load
load_freed s p h = ground arith

pub upd_self : (f : Ptr → Option Cell) (p : Ptr) (c : Option Cell) → upd f p c p ≡ c
upd_self f p c = ground arith

pub upd_ne : (f : Ptr → Option Cell) (p q : Ptr) (c : Option Cell) → q ≢ p → upd f p c q ≡ f q
upd_ne f p q c ne = ground arith
