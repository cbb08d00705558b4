-- ===== src/Wait/Attach.antt =====
-- What `_check_and_attach_condition` decides, and what it leaves behind when it lets `rmw_wait` sleep.
use rmw_zenoh_pico.Prelude.{
  ◌≡◌, ◌≢◌, refl, ap, ◌∙◌, sym, subst, Bool, true, false, ◌||◌, List, [], ◌∷◌, ◌==◌, if◌then◌else◌,
  arith, Bool-cases, inl, inr, ==_iff,
}
use rmw_zenoh_pico.Memory.{Ptr, null}
use rmw_zenoh_pico.Wait.{World, attach_loop, or_else}
use rmw_zenoh_pico.Wait.Ready.{any_ready, Each}

module _ (check : Ptr → World → World × Bool) where
  pub attach_loop-keeps :
      (I : World → Type 0)
      → ((p : Ptr) (w : World) → I w → I (check p w).0)
      → (ps : List Ptr) (w : World) → I w
      → I (attach_loop check ps w).0
  unfolding attach_loop
  attach_loop-keeps I keep [] w h = h
  attach_loop-keeps I keep (p ∷ ps) w h = elim (Bool-cases (p == null)) [
    | inl no_entry ↦ rw no_entry (attach_loop-keeps I keep ps w h)
    | inr entry ↦ elim (Bool-cases (check p w).1) [
      | inl ready ↦ rw (entry, ready) (keep p w h)
      | inr idle ↦ rw (entry, idle) (attach_loop-keeps I keep ps (check p w).0 (keep p w h))
    ]
  ]

  pub attach_loop-ready :
      (I : World → Type 0) (r : Ptr → Bool)
      → ((p : Ptr) (w : World) → I w → I (check p w).0)
      → ((p : Ptr) (w : World) → I w → (check p w).1 ≡ r p)
      → (ps : List Ptr) (w : World) → I w
      → (attach_loop check ps w).1 ≡ any_ready r ps
  unfolding attach_loop
  attach_loop-ready I r keep says [] w h = refl
  attach_loop-ready I r keep says (p ∷ ps) w h = elim (Bool-cases (p == null)) [
    | inl no_entry ↦ rw no_entry (attach_loop-ready I r keep says ps w h)
    | inr entry ↦ elim (Bool-cases (check p w).1) [
      | inl ready ↦ rw (entry, ready, sym (says p w h) ∙ ready) refl
      | inr idle ↦
          rw (entry, idle, sym (says p w h) ∙ idle)
            (attach_loop-ready I r keep says ps (check p w).0 (keep p w h))
    ]
  ]

  loop_null :
      (p : Ptr) (ps : List Ptr) (w : World)
      → (p == null) ≡ true
      → attach_loop check ps w ≡ attach_loop check (p ∷ ps) w
  unfolding attach_loop
  loop_null p ps w no_entry = rw no_entry refl

  loop_entry :
      (p : Ptr) (ps : List Ptr) (w : World)
      → (p == null) ≡ false
      → (check p w).1 ≡ false
      → attach_loop check ps (check p w).0 ≡ attach_loop check (p ∷ ps) w
  unfolding attach_loop
  loop_entry p ps w entry idle = rw (entry, idle) refl

  idle_first :
      (p : Ptr) (ps : List Ptr) (w : World)
      → (p == null) ≡ false
      → (attach_loop check (p ∷ ps) w).1 ≡ false
      → (check p w).1 ≡ false
  unfolding attach_loop
  idle_first p ps w entry idle = ground (arith, entry, idle)

  -- What an idle check establishes of its entry and every check keeps holds of each entry after an
  -- idle loop.
  pub attach_loop-each :
      (D : Ptr → World → Type 0)
      → ((p : Ptr) (w : World) → (check p w).1 ≡ false → D p (check p w).0)
      → ((p q : Ptr) (w : World) → D p w → D p (check q w).0)
      → (ps : List Ptr) (w : World) → (attach_loop check ps w).1 ≡ false
      → Each (λ p. D p (attach_loop check ps w).0) ps
  attach_loop-each D sets keeps [] w idle = tt
  attach_loop-each D sets keeps (p ∷ ps) w idle = elim (Bool-cases (p == null)) [
    | inl no_entry ↦
        let eq = loop_null p ps w no_entry in
        subst (λ r. (p ≢ null → D p r.0) × Each (λ q. D q r.0) ps) eq
          (
            (λ ne. absurd (ne ((==_iff p null).0 no_entry))),
            attach_loop-each D sets keeps ps w (ap (λ r. r.1) eq ∙ idle),
          )
    | inr entry ↦
        let now = idle_first p ps w entry idle in
        let eq = loop_entry p ps w entry now in
        let w1 = (check p w).0 in
        subst (λ r. (p ≢ null → D p r.0) × Each (λ q. D q r.0) ps) eq
          (
            (λ ne. attach_loop-keeps (D p) (λ q v. keeps p q v) ps w1 (sets p w now)),
            attach_loop-each D sets keeps ps w1 (ap (λ r. r.1) eq ∙ idle),
          )
  ]

pub no_events : (ps : List Ptr) → any_ready (λ p. false) ps ≡ false
no_events [] = refl
no_events (p ∷ ps) = ground (arith, no_events ps)

pub or_else-keeps :
    (I : World → Type 0) (f g : World → World × Bool)
    → ((w : World) → I w → I (f w).0)
    → ((w : World) → I w → I (g w).0)
    → (w : World) → I w
    → I (or_else f g w).0
or_else-keeps I f g kf kg w h = elim (Bool-cases (f w).1) [
  | inl ready ↦ rw ready (kf w h)
  | inr idle ↦ rw idle (kg (f w).0 (kf w h))
]

pub or_else-ready :
    (I : World → Type 0) (f g : World → World × Bool) (a b : Bool)
    → ((w : World) → I w → I (f w).0)
    → ((w : World) → I w → (f w).1 ≡ a)
    → ((w : World) → I w → (g w).1 ≡ b)
    → (w : World) → I w
    → (or_else f g w).1 ≡ (a || b)
or_else-ready I f g a b kf sf sg w h = elim (Bool-cases (f w).1) [
  | inl ready ↦ rw (ready, sym (sf w h) ∙ ready) refl
  | inr idle ↦ rw (idle, sym (sf w h) ∙ idle) (sg (f w).0 (kf w h))
]

-- After an idle chain, both parts were idle and the second one ran last.
pub or_else-idle :
    (f g : World → World × Bool) (w : World)
    → (or_else f g w).1 ≡ false
    → ((f w).1 ≡ false) × ((g (f w).0).1 ≡ false) × ((g (f w).0).0 ≡ (or_else f g w).0)
or_else-idle f g w idle = elim (Bool-cases (f w).1) [
  | inl ready ↦ ground (arith, ready, idle)
  | inr first_idle ↦
      rw first_idle
        (refl, sym (ap (λ b. (if b then ((f w).0, true) else g (f w).0).1) first_idle) ∙ idle, refl)
]
