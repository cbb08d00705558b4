-- ===== src/MessageList/Chain.antt =====
-- What a `ReceiveMessageDataList` stands for: its messages with their addresses, from top to bottom.
use rmw_zenoh_pico.Prelude.{
  ◌≡◌, ◌≢◌, refl, Bool, true, false, ◌||◌, Option, some, List, [], ◌∷◌, ◌++◌, arith, ◌==◌, pos,
  length,
}
use rmw_zenoh_pico.Message.{ReceiveMessageData}
use rmw_zenoh_pico.Memory.{Ptr, null, Cell, Memory, upd}
use rmw_zenoh_pico.MessageList.{ReceiveMessageDataList}

abbrev pub Messages : Type 0
Messages = List (Ptr × ReceiveMessageData)

-- The address at which `xs` begins, if `stop` follows it.
abbrev pub first : Messages → Ptr → Ptr
first [] stop = stop
first ((a, m) ∷ xs) stop = a

-- The address of the last message, `before` if there is none.
abbrev pub final : Ptr → Messages → Ptr
final before [] = before
final before ((a, m) ∷ xs) = final a xs

abbrev pub has : Ptr → Messages → Bool
has p [] = false
has p ((a, m) ∷ xs) = (p == a) || has p xs

abbrev pub Distinct : Messages → Type 0
Distinct [] = Unit
Distinct ((a, m) ∷ xs) = (has a xs ≡ false) × Distinct xs

abbrev pub cell_of : Ptr → ReceiveMessageData → Cell
cell_of q m = record { next = q; msg = m }

-- The `next` pointers lead through the structs of `xs` and then to `stop`.
abbrev pub Chain : (Ptr → Option Cell) → Messages → Ptr → Type 0
Chain f [] stop = Unit
Chain f ((a, m) ∷ xs) stop = (a ≢ null) × (f a ≡ some (cell_of (first xs stop) m)) × Chain f xs stop

-- A well-formed queue that holds the messages `xs`.
pub record IsQueue (s : Memory) (l : ReceiveMessageDataList) (xs : Messages) : Type 0 where
  pub top : l.que_top ≡ first xs null
  pub bottom : l.que_bottom ≡ final null xs
  pub counted : l.count ≡ pos (length xs)
  pub chain : Chain s.cell xs null
  pub distinct : Distinct xs

pub ne_of_not_has :
    (a p : Ptr) (n : ReceiveMessageData) (xs : Messages) → has a ((p, n) ∷ xs) ≡ false → a ≢ p
ne_of_not_has a p n xs h = ground arith

pub not_has_head :
    (a p : Ptr) (n : ReceiveMessageData) (xs : Messages)
    → has a ((p, n) ∷ xs) ≡ false
    → has a ((p, n) ∷ []) ≡ false
not_has_head a p n xs h = ground arith

pub not_has_tail :
    (a p : Ptr) (n : ReceiveMessageData) (xs : Messages)
    → has a ((p, n) ∷ xs) ≡ false
    → has a xs ≡ false
not_has_tail a p n xs h = ground arith

pub Chain-upd :
    (f : Ptr → Option Cell) (xs : Messages) (stop p : Ptr) (c : Option Cell)
    → Chain f xs stop
    → has p xs ≡ false
    → Chain (upd f p c) xs stop
Chain-upd f [] stop p c h out = tt
Chain-upd f ((a, m) ∷ xs) stop p c h out =
    (h.0, ground (arith, h.1), Chain-upd f xs stop p c h.2 (ground arith))

-- Only the cells of the messages matter.
pub Chain-same :
    (f g : Ptr → Option Cell) (xs : Messages) (stop : Ptr)
    → Chain f xs stop
    → ((a : Ptr) → has a xs ≡ true → g a ≡ f a)
    → Chain g xs stop
Chain-same f g [] stop h same = tt
Chain-same f g ((a, m) ∷ xs) stop h same =
    (h.0, ground (arith, h.1, same a), Chain-same f g xs stop h.2 (λ b i. same b (ground arith)))

pub final-ne-null :
    (f : Ptr → Option Cell) (before : Ptr) (xs : Messages) (stop : Ptr)
    → before ≢ null
    → Chain f xs stop
    → final before xs ≢ null
final-ne-null f before [] stop ne h = ne
final-ne-null f before ((a, m) ∷ xs) stop ne h = final-ne-null f a xs stop h.0 h.2

-- The last address is `before` or one of the list's.
pub final-ne :
    (p before : Ptr) (xs : Messages) → p ≢ before → has p xs ≡ false → final before xs ≢ p
final-ne p before [] ne out = λ e. ne (ground arith)
final-ne p before ((a, m) ∷ xs) ne out = final-ne p a xs (ground arith) (ground arith)

pub has-append : (p : Ptr) (xs ys : Messages) → has p (xs ++ ys) ≡ (has p xs || has p ys)
has-append p [] ys = refl
has-append p ((a, m) ∷ xs) ys = ground (arith, has-append p xs ys)

-- A queue stays one while its own structs stay.
pub IsQueue-same :
    (s s' : Memory) (l : ReceiveMessageDataList) (xs : Messages)
    → IsQueue s l xs
    → ((a : Ptr) → has a xs ≡ true → s'.cell a ≡ s.cell a)
    → IsQueue s' l xs
IsQueue-same s s' l xs is same = record {
  top = is.top;
  bottom = is.bottom;
  counted = is.counted;
  chain = Chain-same s.cell s'.cell xs null is.chain same;
  distinct = is.distinct;
}

pub ne_of_has : (a p : Ptr) (xs : Messages) → has a xs ≡ true → has p xs ≡ false → a ≢ p
ne_of_has a p [] h out e = ground arith
ne_of_has a p ((b, m) ∷ xs) h out e = ground (arith, ne_of_has a p xs)
