-- ===== src/Auth/Scopes.antt =====
-- Which scopes a list of granted scopes satisfies (scopes.go, `ScopeSatisfied`).
use goloom.Auth.{
  scope_write, scope_write_draft, scope_write_schedule, scope_delete, scope_delete_draft,
  scope_delete_schedule, grants, scope_satisfied,
}
use goloom.Prelude.{
  String, ◌≡◌, refl, sym, ◌∙◌, ◌≢◌, ◌↔◌, inl, inr, true, false, List, [], ◌∷◌, arith, ◌==◌, eq_nat,
  eq_text, eq_of_beq, beq_self, ne_of_beq, Bool-cases, All, In, All-In,
}

-- The documented hierarchy: each scope grants itself, `write` and `delete` their two parts.
pub data Covers : String → String → Type 0 where
  itself : {s t : String} → s ≡ t → Covers s t
  write_draft : {s t : String} → s ≡ scope_write → t ≡ scope_write_draft → Covers s t
  write_schedule : {s t : String} → s ≡ scope_write → t ≡ scope_write_schedule → Covers s t
  delete_draft : {s t : String} → s ≡ scope_delete → t ≡ scope_delete_draft → Covers s t
  delete_schedule : {s t : String} → s ≡ scope_delete → t ≡ scope_delete_schedule → Covers s t

grants_sound : (g r : String) → grants g r ≡ true → Covers g r
unfolding grants
grants_sound g r h = grind (
  arith,
  itself,
  write_draft,
  write_schedule,
  delete_draft,
  delete_schedule,
  eq_of_beq g r,
  eq_of_beq g scope_write,
  eq_of_beq g scope_delete,
  eq_of_beq r scope_write_draft,
  eq_of_beq r scope_write_schedule,
  eq_of_beq r scope_delete_draft,
  eq_of_beq r scope_delete_schedule,
)

grants_complete : (g r : String) → Covers g r → grants g r ≡ true
unfolding grants
grants_complete g r (itself e) = rw e (rw (beq_self r))
grants_complete g r (write_draft e f) = rw (e, f)
grants_complete g r (write_schedule e f) = rw (e, f)
grants_complete g r (delete_draft e f) = rw (e, f)
grants_complete g r (delete_schedule e f) = rw (e, f)

covering :
    (scopes : List String) (required : String)
    → scope_satisfied scopes required ≡ true
    → (granted : String) × In granted scopes × Covers granted required
unfolding scope_satisfied
covering [] required h = cc
covering (g ∷ gs) required h = elim (Bool-cases (grants g required)) [
  | inl here ↦ (g, inl refl, grants_sound g required here)
  | inr not_here ↦
      let (granted, mem, covers) = covering gs required (rw not_here at h) in
      (granted, inr mem, covers)
]

satisfied :
    (scopes : List String) (granted required : String)
    → In granted scopes
    → Covers granted required
    → scope_satisfied scopes required ≡ true
unfolding scope_satisfied
satisfied [] granted required mem covers = elim mem [ ]
satisfied (g ∷ gs) granted required (inl e) covers =
    rw (grants_complete g required (rw e at covers))
satisfied (g ∷ gs) granted required (inr mem) covers =
    ground (arith, satisfied gs granted required mem covers)

-- A scope is satisfied by a list exactly when some scope of the list covers it: it is that scope,
-- or a draft or schedule part of a granted "write" or "delete".
pub scope_satisfied_iff :
    (scopes : List String) (required : String)
    → (scope_satisfied scopes required ≡ true)
      ↔ ((granted : String) × In granted scopes × Covers granted required)
scope_satisfied_iff scopes required =
    (covering scopes required, λ (g, mem, covers). satisfied scopes g required mem covers)

-- Only "write" and "delete" cover another scope.
Covers-leaf : {b c : String} → b ≢ scope_write → b ≢ scope_delete → Covers b c → b ≡ c
Covers-leaf w d (itself e) = e
Covers-leaf w d (write_draft e f) = absurd (w e)
Covers-leaf w d (write_schedule e f) = absurd (w e)
Covers-leaf w d (delete_draft e f) = absurd (d e)
Covers-leaf w d (delete_schedule e f) = absurd (d e)

ne_text : (b : String) {s : String} (t : String) → b ≡ s → (s == t) ≡ false → b ≢ t
ne_text b {s} t e h same = ne_of_beq s t h (sym e ∙ same)

Covers-trans : {a b c : String} → Covers a b → Covers b c → Covers a c
Covers-trans {b = b} (itself e) k = rw e k
Covers-trans {b = b} (write_draft e f) k =
    write_draft e (sym (Covers-leaf (ne_text b _ f refl) (ne_text b _ f refl) k) ∙ f)
Covers-trans {b = b} (write_schedule e f) k =
    write_schedule e (sym (Covers-leaf (ne_text b _ f refl) (ne_text b _ f refl) k) ∙ f)
Covers-trans {b = b} (delete_draft e f) k =
    delete_draft e (sym (Covers-leaf (ne_text b _ f refl) (ne_text b _ f refl) k) ∙ f)
Covers-trans {b = b} (delete_schedule e f) k =
    delete_schedule e (sym (Covers-leaf (ne_text b _ f refl) (ne_text b _ f refl) k) ∙ f)

-- What a list of scopes satisfies, a list that satisfies all of them satisfies.
pub scope_satisfied_trans :
    (scopes narrower : List String) (required : String)
    → All (λ scope. scope_satisfied scopes scope ≡ true) narrower
    → scope_satisfied narrower required ≡ true
    → scope_satisfied scopes required ≡ true
scope_satisfied_trans scopes narrower required covered h =
    let (s, mem, covers) = (scope_satisfied_iff narrower required).0 h in
    let (t, mem', covers') = (scope_satisfied_iff scopes s).0 (All-In _ narrower s covered mem) in
    (scope_satisfied_iff scopes required).1 (t, mem', Covers-trans covers' covers)
