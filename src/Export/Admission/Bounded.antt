-- ===== src/Export/Admission/Bounded.antt =====
-- What the admission loop grants.
use robotics_runtime_infra.Base.{
  ℕ, ◌+◌, ◌≤◌, ◌≡◌, String, false, List, [], ◌∷◌, sum_of, arith, Option-cases, inl, inr,
}
use robotics_runtime_infra.Base.Result.{ok, Result-cases}
use robotics_runtime_infra.Base.Text.{member}
use robotics_runtime_infra.Base.Value.{Value, Items, no_items, item, Fields, as_obj, as_str}
use robotics_runtime_infra.Export.Admission.{
  Host, Admitted, relative, text_of, required, admit_names, admit_source, admit_one, admit,
}

-- The texts that a list has are not among those seen, and no two are the same.
abbrev pub Fresh : List String → List String → Type 0
Fresh seen [] = Unit
Fresh seen (x ∷ xs) = (member x seen ≡ false) × Fresh (x ∷ seen) xs

abbrev pub size_of : Admitted → ℕ
size_of a = a.before.2

abbrev pub names_of : List Admitted → List String
names_of [] = []
names_of (a ∷ l) = a.name ∷ names_of l

abbrev pub outputs_of : List Admitted → List String
outputs_of [] = []
outputs_of (a ∷ l) = a.output ∷ outputs_of l

module _ (host : Host) where
  admit_names-member :
      (names paths : List String) (entry : Fields) {name output : String}
      → admit_names host names paths entry ≡ ok (name, output)
      → (member name names ≡ false) × (member output paths ≡ false)
  unfolding admit_names
  admit_names-member names paths entry {name = name} {output = output} h =
      elim (Result-cases (required host entry "name")) [
        | inr (e, p) ↦ absurd (ground arith)
        | inl (value, p) ↦ elim (Option-cases (as_str value)) [
          | inl e ↦ absurd (ground arith)
          | inr (name', e) ↦ elim (Result-cases (required host entry "relativePath")) [
            | inr (e', q) ↦ absurd (ground arith)
            | inl (target, q) ↦ elim (Result-cases (relative host (text_of host target))) [
              | inr (e', r) ↦ absurd (ground arith)
              | inl (path, r) ↦
                  let same : name' ≡ name = ground arith in
                  let same' : path.text ≡ output = ground arith in
                  let new : member name' names ≡ false = ground arith in
                  let new' : member path.text paths ≡ false = ground arith in
                  (rw same at new, rw same' at new')
            ]
          ]
        ]
      ]

  -- What is known of an entry that was admitted.
  abbrev Admits : ℕ → List String → List String → ℕ → Admitted → ℕ → Type 0
  Admits maximum names paths total a sum =
      (member a.name names ≡ false)
      × (member a.output paths ≡ false)
      × (sum ≡ total + size_of a)
      × (sum ≤ maximum)

  admit_one-Admits :
      (maximum : ℕ) (names paths : List String) (total : ℕ) (value : Value) {a : Admitted} {sum : ℕ}
      → admit_one host maximum names paths total value ≡ ok (a, sum)
      → Admits maximum names paths total a sum
  unfolding admit_one
  admit_one-Admits maximum names paths total value {a = a} {sum = sum} h =
      elim (Option-cases (as_obj value)) [
        | inl e ↦ absurd (ground arith)
        | inr (entry, e) ↦ elim (Result-cases (admit_names host names paths entry)) [
          | inr (e', p) ↦ absurd (ground arith)
          | inl ((name, output), p) ↦ elim (Result-cases (admit_source host entry)) [
            | inr (e', q) ↦ absurd (ground arith)
            | inl ((actual, facts), q) ↦
                let (new, new') = admit_names-member names paths entry p in
                let its_name : name ≡ a.name = ground arith in
                let its_output : output ≡ a.output = ground arith in
                let its_sum : sum ≡ total + facts.st_size = ground arith in
                let its_size : facts.st_size ≡ size_of a = ground arith in
                (rw its_name at new, rw its_output at new', ground arith, ground arith)
          ]
        ]
      ]

  -- Of an inventory that is admitted, every entry is, with names and paths that are new and
  -- different from one another, and the sizes sum up to the total, which is within the bound.
  pub admit-Fresh :
      (maximum : ℕ) (names paths : List String) (total : ℕ) (items : Items)
      {admitted : List Admitted} {sum : ℕ}
      → total ≤ maximum
      → admit host maximum names paths total items ≡ ok (admitted, sum)
      → Fresh names (names_of admitted)
        × Fresh paths (outputs_of admitted)
        × (sum ≡ total + sum_of size_of admitted)
        × (sum ≤ maximum)
  unfolding admit
  admit-Fresh maximum names paths total no_items {admitted = admitted} {sum = sum} within h =
      let empty : [] ≡ admitted = ground arith in rw (← empty) (tt, tt, ground arith, ground arith)
  admit-Fresh maximum names paths total (item value items) {admitted = admitted} {sum = sum} within
        h =
      elim (Result-cases (admit_one host maximum names paths total value)) [
        | inr (e, p) ↦ absurd (ground arith)
        | inl ((a, next), p) ↦
            elim (Result-cases
              (admit host maximum (a.name ∷ names) (a.output ∷ paths) next items)) [
                | inr (e, q) ↦ absurd (ground arith)
                | inl ((rest, last), q) ↦
                    let (new, new', its_sum, bounded) =
                      admit_one-Admits maximum names paths total value p in
                    let (fresh, fresh', its_rest, bounded') =
                      admit-Fresh maximum (a.name ∷ names) (a.output ∷ paths) next items bounded
                        q in
                    let whole : a ∷ rest ≡ admitted = ground arith in
                    let end : last ≡ sum = ground arith in
                    rw (← whole) ((new, fresh), (new', fresh'), ground arith, ground arith)
              ]
      ]
