-- ===== src/Collection/Add/Rows.antt =====
-- The lists that `add` keeps, as the rows that were bound: one for each payload.
use Prim.Native.String.{◌++◌ as append_text}
use robotics_runtime_infra.Base.{
  ℕ, suc, ◌+◌, ◌≡◌, ◌⊎◌, String, Bool, true, false, ◌&&◌, some, List, [], ◌∷◌, ◌++◌, length,
  length-append, refl, sym, subst, ap, ◌∙◌, arith, Bool-cases, Option-cases, inl, inr,
  if◌then◌else◌,
}
use robotics_runtime_infra.Base.Result.{ok, Result-cases}
use robotics_runtime_infra.Base.Text.{member}
use robotics_runtime_infra.Collection.Add.{
  Sources, Entry, State, start, flags, kind_of, is_duplicate, argument_of, locate, entry_of,
  append_payload, add,
}

pub record Row : Type 0 where
  pub flag : String
  pub subject : String
  pub source : String
  pub relative : String
  pub actual : String
  pub digest : String
  pub size : ℕ

abbrev pub subjects : List Row → List String
subjects [] = []
subjects (r ∷ rs) = r.subject ∷ subjects rs

abbrev pub row_flags : List Row → List String
row_flags [] = []
row_flags (r ∷ rs) = r.flag ∷ row_flags rs

module _ (sources : Sources) where
  abbrev pub retained_of : Row → String
  retained_of row = sources.at_destination (append_text "payloads/" row.relative)

  abbrev pub target_of : Bool → Row → String
  target_of source_arguments row = if source_arguments then row.actual else retained_of row

  -- The arguments of the tools: a flag and a target for each row.
  abbrev pub flatten : (Row → String) → List Row → List String
  flatten target [] = []
  flatten target (r ∷ rs) = r.flag ∷ argument_of r.subject (target r) ∷ flatten target rs

  abbrev pub entry_of_row : ℕ → Row → Entry
  entry_of_row n row = entry_of sources n row.relative row.digest row.size

  -- The entries of the rows, numbered on from `n`.
  abbrev pub entries_from : ℕ → List Row → List Entry
  entries_from n [] = []
  entries_from n (r ∷ rs) = entry_of_row (suc n) r ∷ entries_from (suc n) rs

  flatten-append :
      (target : Row → String) (xs ys : List Row)
      → flatten target (xs ++ ys) ≡ flatten target xs ++ flatten target ys
  flatten-append target [] ys = refl
  flatten-append target (x ∷ xs) ys =
      ap (λ l. x.flag ∷ argument_of x.subject (target x) ∷ l) (flatten-append target xs ys)

  entries_from-append :
      (n : ℕ) (xs : List Row) (y : Row)
      → entries_from n (xs ++ (y ∷ []))
        ≡ entries_from n xs ++ (entry_of_row (suc (n + length xs)) y ∷ [])
  entries_from-append n [] y =
      let same : n ≡ n + 0 = omega arith in ap (λ k. entry_of_row (suc k) y ∷ []) same
  entries_from-append n (x ∷ xs) y =
      let same : suc n + length xs ≡ n + suc (length xs) = omega arith in
      ap (λ l. entry_of_row (suc n) x ∷ l)
        (entries_from-append (suc n) xs y
          ∙ ap (λ k. entries_from (suc n) xs ++ (entry_of_row (suc k) y ∷ [])) same)

  -- A regular file below the source, with a flag of the tools, and its bytes' digest and size.
  pub record IsPayload (row : Row) : Type 0 where
    pub supported : member row.flag flags ≡ true
    pub located : locate sources row.source ≡ ok (row.relative, row.actual)
    pub regular : (sources.is_file row.actual ≡ true) × (sources.is_symlink row.actual ≡ false)
    pub its_digest : sources.digest row.actual ≡ some row.digest
    pub its_size : sources.size row.actual ≡ some row.size

  abbrev pub AllPayload : List Row → Type 0
  AllPayload [] = Unit
  AllPayload (r ∷ rs) = IsPayload r × AllPayload rs

  AllPayload-append :
      (xs : List Row) (y : Row) → AllPayload xs → IsPayload y → AllPayload (xs ++ (y ∷ []))
  AllPayload-append [] y a p = (p, tt)
  AllPayload-append (x ∷ xs) y (q, a) p = (q, AllPayload-append xs y a p)

  module _ (source_arguments : Bool) where
    -- The state after the rows.
    pub record Holds (state : State) (rows : List Row) : Type 0 where
      pub all_payload : AllPayload rows
      pub its_entries : state.entries ≡ entries_from 0 rows
      pub its_arguments : state.arguments ≡ flatten (target_of source_arguments) rows
      pub its_retained : state.retained_arguments ≡ flatten retained_of rows
      pub its_counter : state.counter ≡ length rows

    pub start-Holds : Holds start []
    start-Holds = record {
      all_payload = tt;
      its_entries = refl;
      its_arguments = refl;
      its_retained = refl;
      its_counter = refl;
    }

    append_payload-Holds :
        (state : State) (rows : List Row) (row : Row)
        → Holds state rows
        → IsPayload row
        → Holds
            (append_payload sources source_arguments row.flag row.subject row.relative row.actual
              row.digest row.size state)
            (rows ++ (row ∷ []))
    unfolding append_payload
    append_payload-Holds state rows row holds payload = record {
      all_payload = AllPayload-append rows row holds.all_payload payload;
      its_entries =
          let count : 0 + length rows ≡ length rows = omega arith in
          rw (holds.its_entries, holds.its_counter)
            (sym (rw count at (entries_from-append 0 rows row)));
      its_arguments =
          rw holds.its_arguments
            (sym (flatten-append (target_of source_arguments) rows (row ∷ [])));
      its_retained = rw holds.its_retained (sym (flatten-append retained_of rows (row ∷ [])));
      its_counter = let count = holds.its_counter in omega (arith, length-append rows (row ∷ []));
    }

    -- What `add` does to the rows: it appends one with its flag and subject, or, only where it was
    -- asked to leave out duplicates, nothing.
    pub add-rows :
        (flag subject source : String) (deduplicate : Bool) (state next : State) (rows : List Row)
        → Holds state rows
        → add sources source_arguments flag subject source deduplicate state ≡ ok next
        → ((row : Row) × (row.flag ≡ flag)
            × (row.subject ≡ subject)
            × Holds next (rows ++ (row ∷ [])))
          ⊎ ((deduplicate ≡ true) × Holds next rows)
    unfolding add
    add-rows flag subject source deduplicate state next rows holds h =
        elim (Result-cases (locate sources source)) [
          | inr (e, p) ↦ absurd (ground arith)
          | inl ((relative, actual), p) ↦ elim (Option-cases (sources.digest actual)) [
            | inl e ↦ absurd (ground arith)
            | inr (digest, d) ↦ elim (Option-cases (sources.size actual)) [
              | inl e ↦ absurd (ground arith)
              | inr (size, s) ↦
                  elim (Bool-cases
                    (deduplicate && is_duplicate (kind_of subject) digest size state.identities)) [
                      | inl b ↦
                          let same : state ≡ next = ground arith in
                          inr (ground arith, subst (λ t. Holds t rows) same holds)
                      | inr b ↦
                          let row : Row = record {
                            flag = flag;
                            subject = subject;
                            source = source;
                            relative = relative;
                            actual = actual;
                            digest = digest;
                            size = size;
                          } in
                          let same : append_payload sources source_arguments flag subject relative
                                actual digest size state
                              ≡ next =
                            ground arith in
                          let regular : (sources.is_file actual ≡ true)
                              × (sources.is_symlink actual ≡ false) =
                            (ground arith, ground arith) in
                          let supported : member flag flags ≡ true = ground arith in
                          let payload : IsPayload row = record {
                            supported = supported;
                            located = p;
                            regular = regular;
                            its_digest = d;
                            its_size = s;
                          } in
                          inl (
                            row,
                            refl,
                            refl,
                            subst (λ t. Holds t (rows ++ (row ∷ []))) same
                                (append_payload-Holds state rows row holds payload),
                          )
                    ]
            ]
          ]
        ]
