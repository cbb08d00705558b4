-- ===== src/Wait/Ready.antt =====
-- The loops that detach, for any way to ask whether an entry is ready.
use rmw_zenoh_pico.Prelude.{
  ◌≡◌, ◌≢◌, refl, ap, subst, Bool, true, false, ◌||◌, List, [], ◌∷◌, ◌==◌, if◌then◌else◌,
  Bool-cases, inl, inr, ==_iff,
}
use rmw_zenoh_pico.Memory.{Ptr, null}
use rmw_zenoh_pico.Wait.{World}
use rmw_zenoh_pico.Wait.Call.{detach_loop}

-- An entry stays if it is ready and is NULL otherwise.
abbrev pub keep_ready : (Ptr → Bool) → Ptr → Ptr
keep_ready r p = if p == null then null else if r p then p else null

abbrev pub keep_all : (Ptr → Bool) → List Ptr → List Ptr
keep_all r [] = []
keep_all r (p ∷ ps) = keep_ready r p ∷ keep_all r ps

abbrev pub any_ready : (Ptr → Bool) → List Ptr → Bool
any_ready r [] = false
any_ready r (p ∷ ps) = if p == null then any_ready r ps else (r p || any_ready r ps)

-- `P` of every entry that is not NULL.
abbrev pub Each : (Ptr → Type 0) → List Ptr → Type 0
Each P [] = Unit
Each P (p ∷ ps) = (p ≢ null → P p) × Each P ps

module _ (probe : Ptr → World → World × Bool) where
  -- What every probe keeps, the loop keeps.
  pub detach_loop-keeps :
      (I : World → Type 0)
      → ((p : Ptr) (w : World) → I w → I (probe p w).0)
      → (ps : List Ptr) (w : World) → I w
      → I (detach_loop probe ps w).1
  unfolding detach_loop
  detach_loop-keeps I keep [] w h = h
  detach_loop-keeps I keep (p ∷ ps) w h = elim (Bool-cases (p == null)) [
    | inl no_entry ↦ rw no_entry (detach_loop-keeps I keep ps w h)
    | inr entry ↦ rw entry (detach_loop-keeps I keep ps (probe p w).0 (keep p w h))
  ]

  -- If the probes answer by `r`, the entries that are not ready become NULL, and the flag says whether
  -- one was ready.
  pub detach_loop-ready :
      (I : World → Type 0) (r : Ptr → Bool)
      → ((p : Ptr) (w : World) → I w → I (probe p w).0)
      → ((p : Ptr) (w : World) → I w → (probe p w).1 ≡ r p)
      → (ps : List Ptr) (w : World) → I w
      → ((detach_loop probe ps w).0 ≡ keep_all r ps) × ((detach_loop probe ps w).2 ≡ any_ready r ps)
  unfolding detach_loop
  detach_loop-ready I r keep says [] w h = (refl, refl)
  detach_loop-ready I r keep says (p ∷ ps) w h = elim (Bool-cases (p == null)) [
    | inl no_entry ↦
        let (es, any) = detach_loop-ready I r keep says ps w h in
        rw no_entry (ap (λ l. null ∷ l) es, any)
    | inr entry ↦
        let (es, any) = detach_loop-ready I r keep says ps (probe p w).0 (keep p w h) in
        rw (entry, says p w h) (ap (λ l. (if r p then p else null) ∷ l) es, ap (λ b. r p || b) any)
  ]

  loop_null :
      (p : Ptr) (ps : List Ptr) (w : World)
      → (p == null) ≡ true
      → (detach_loop probe ps w).1 ≡ (detach_loop probe (p ∷ ps) w).1
  unfolding detach_loop
  loop_null p ps w no_entry = rw no_entry refl

  loop_entry :
      (p : Ptr) (ps : List Ptr) (w : World)
      → (p == null) ≡ false
      → (detach_loop probe ps (probe p w).0).1 ≡ (detach_loop probe (p ∷ ps) w).1
  unfolding detach_loop
  loop_entry p ps w entry = rw entry refl

  -- What a probe establishes of its entry and every probe keeps holds of each entry in the end.
  pub detach_loop-each :
      (D : Ptr → World → Type 0)
      → ((p : Ptr) (w : World) → D p (probe p w).0)
      → ((p q : Ptr) (w : World) → D p w → D p (probe q w).0)
      → (ps : List Ptr) (w : World) → Each (λ p. D p (detach_loop probe ps w).1) ps
  detach_loop-each D sets keeps [] w = tt
  detach_loop-each D sets keeps (p ∷ ps) w = elim (Bool-cases (p == null)) [
    | inl no_entry ↦
        subst (λ v. (p ≢ null → D p v) × Each (λ q. D q v) ps) (loop_null p ps w no_entry)
          ((λ ne. absurd (ne ((==_iff p null).0 no_entry))), detach_loop-each D sets keeps ps w)
    | inr entry ↦
        let w1 = (probe p w).0 in
        subst (λ v. (p ≢ null → D p v) × Each (λ q. D q v) ps) (loop_entry p ps w entry)
          (
            (λ ne. detach_loop-keeps (D p) (λ q v. keeps p q v) ps w1 (sets p w)),
            detach_loop-each D sets keeps ps w1,
          )
  ]

pub Each-map :
    (P Q : Ptr → Type 0) → ((p : Ptr) → P p → Q p) → (ps : List Ptr) → Each P ps → Each Q ps
Each-map P Q f [] h = tt
Each-map P Q f (p ∷ ps) h = ((λ ne. f p (h.0 ne)), Each-map P Q f ps h.1)
