-- ===== src/Export/Copy/Whole.antt =====
-- What an export leaves: complete copies of admitted entries, also when it stops.
use robotics_runtime_infra.Base.{
  ℕ, ◌≤◌, ◌≡◌, ◌++◌, true, none, some, List, [], ◌∷◌, length, sum_of, refl, subst, ap, arith,
  str_eq, str_eq_iff, Option-cases, inl, inr,
}
use robotics_runtime_infra.Base.Result.{ok, Result-cases}
use robotics_runtime_infra.Base.Value.{Fields, get}
use robotics_runtime_infra.Export.Admission.{Host, Error, Admitted, admit}
use robotics_runtime_infra.Export.Admission.Bounded.{
  Fresh, size_of, names_of, outputs_of, admit-Fresh,
}
use robotics_runtime_infra.Export.Copy.{
  Bytes, Attempt, Completed, is_same, admitted_size, copy_blocks, copy_entry, copy_all, Roots,
  entries_of, bound_of, admitted_plan, complete, incomplete, export,
}

abbrev concat : List Bytes → Bytes
concat [] = []
concat (b ∷ bs) = b ++ concat bs

append_assoc : (a b c : Bytes) → (a ++ b) ++ c ≡ a ++ (b ++ c)
append_assoc [] b c = refl
append_assoc (x ∷ a) b c = ap (λ l. x ∷ l) (append_assoc a b c)

append_nil : (a : Bytes) → a ++ [] ≡ a
append_nil [] = refl
append_nil (x ∷ a) = ap (λ l. x ∷ l) (append_nil a)

-- The loop writes what it reads.
copy_blocks-concat :
    (size : ℕ) (written : Bytes) (blocks : List Bytes) {content : Bytes}
    → copy_blocks size written blocks ≡ ok content
    → content ≡ written ++ concat blocks
unfolding copy_blocks
copy_blocks-concat size written [] h = rw append_nil (ground arith)
copy_blocks-concat size written (block ∷ blocks) h =
    rw (← append_assoc written block (concat blocks))
      (copy_blocks-concat size (written ++ block) blocks (ground arith))

module _ (host : Host) where
  -- A copy of an entry: the blocks that were read from a source that kept its admitted identity, and
  -- retained bytes with the same digest.
  pub record IsCopied (a : Admitted) (attempt : Attempt) (c : Completed) : Type 0 where
    pub its_name : c.name ≡ a.name
    pub its_path : c.relative_path ≡ a.output
    pub same_before : is_same attempt.opened a.before ≡ true
    pub same_after : is_same attempt.after a.before ≡ true
    pub same_still : is_same attempt.current a.before ≡ true
    pub its_digest : c.sha256 ≡ host.sha256 (concat attempt.blocks)
    pub its_size : c.size_bytes ≡ length (concat attempt.blocks)
    pub admitted_bytes : c.size_bytes ≡ size_of a
    pub retained : Bytes
    pub read_back : attempt.retained ≡ some retained
    pub retained_digest : host.sha256 retained ≡ c.sha256
    pub retained_bytes : attempt.retained_size ≡ c.size_bytes

  copy_entry-IsCopied :
      (a : Admitted) (attempt : Attempt) {c : Completed}
      → copy_entry host a attempt ≡ ok c
      → IsCopied a attempt c
  unfolding copy_entry
  copy_entry-IsCopied a attempt {c = c} h =
      elim (Result-cases (copy_blocks (admitted_size a.before) [] attempt.blocks)) [
        | inr (e, p) ↦ absurd (ground arith)
        | inl (content, p) ↦ elim (Option-cases attempt.retained) [
          | inl e ↦ absurd (ground arith)
          | inr (retained, e) ↦
              let whole = copy_blocks-concat (admitted_size a.before) [] attempt.blocks p in
              let size : length content ≡ c.size_bytes = ground arith in
              let digest : host.sha256 content ≡ c.sha256 = ground arith in
              let kept : str_eq (host.sha256 retained) (host.sha256 content) ≡ true =
                ground arith in
              let same = (str_eq_iff (host.sha256 retained) (host.sha256 content)).0 kept in
              record {
                its_name = ground arith;
                its_path = ground arith;
                same_before = ground arith;
                same_after = ground arith;
                same_still = ground arith;
                its_digest = cc;
                its_size = cc;
                admitted_bytes = ground arith;
                retained = retained;
                read_back = e;
                retained_digest = cc;
                retained_bytes = ground arith;
              }
        ]
      ]

  module _ (attempts : Admitted → Attempt) where
    -- The completed entries are copies of the first admitted ones, in order.
    abbrev pub CopiedFirst : List Admitted → List Completed → Type 0
    CopiedFirst as_admitted [] = Unit
    CopiedFirst [] (c ∷ cs) = ⊥
    CopiedFirst (a ∷ l) (c ∷ cs) = IsCopied a (attempts a) c × CopiedFirst l cs

    copy_all-CopiedFirst : (l : List Admitted) → CopiedFirst l (copy_all host attempts l).0
    unfolding copy_all
    copy_all-CopiedFirst [] = tt
    copy_all-CopiedFirst (a ∷ l) = elim (Result-cases (copy_entry host a (attempts a))) [
      | inr (e, p) ↦ rw (CopiedFirst, p) tt
      | inl (c, p) ↦
          rw (CopiedFirst, p) (copy_entry-IsCopied a (attempts a) p, copy_all-CopiedFirst l)
    ]

    copy_all-length :
        (l : List Admitted)
        → (copy_all host attempts l).1 ≡ none
        → length (copy_all host attempts l).0 ≡ length l
    unfolding copy_all
    copy_all-length [] h = refl
    copy_all-length (a ∷ l) h = elim (Result-cases (copy_entry host a (attempts a))) [
      | inr (e, p) ↦ absurd (ground arith)
      | inl (c, p) ↦ ground (arith, copy_all-length l)
    ]

    CopiedFirst-sum :
        (l : List Admitted) (cs : List Completed)
        → CopiedFirst l cs
        → sum_of (λ (c : Completed). c.size_bytes) cs ≤ sum_of size_of l
    CopiedFirst-sum l [] f = ground arith
    CopiedFirst-sum [] (c ∷ cs) f = absurd f
    CopiedFirst-sum (a ∷ l) (c ∷ cs) (copied, f) =
        let size = copied.admitted_bytes in ground (arith, CopiedFirst-sum l cs f)

    CopiedFirst-total :
        (l : List Admitted) (cs : List Completed)
        → CopiedFirst l cs
        → length cs ≡ length l
        → sum_of (λ (c : Completed). c.size_bytes) cs ≡ sum_of size_of l
    CopiedFirst-total [] [] f h = refl
    CopiedFirst-total (a ∷ l) [] f h = absurd (ground arith)
    CopiedFirst-total [] (c ∷ cs) f h = absurd f
    CopiedFirst-total (a ∷ l) (c ∷ cs) (copied, f) h =
        let size = copied.admitted_bytes in
        let rest = CopiedFirst-total l cs f (ground arith) in ground arith

    -- What a plan says that is admitted.
    abbrev pub IsPlanned : Roots → Fields → List Admitted → ℕ → ℕ → Type 0
    IsPlanned roots plan admitted total maximum =
        (admitted_plan host roots plan ≡ ok (admitted, total, maximum))
        × Fresh [] (names_of admitted)
        × Fresh [] (outputs_of admitted)
        × (total ≡ sum_of size_of admitted)
        × (total ≤ maximum)

    admitted_plan-IsPlanned :
        (roots : Roots) (plan : Fields) {admitted : List Admitted} {total maximum : ℕ}
        → admitted_plan host roots plan ≡ ok (admitted, total, maximum)
        → IsPlanned roots plan admitted total maximum
    unfolding admitted_plan
    admitted_plan-IsPlanned roots plan {admitted = admitted} {total = total} {maximum = maximum} h =
        elim (Option-cases (entries_of host (get plan "entries"))) [
          | inl e ↦ absurd (ground arith)
          | inr (items, e) ↦ elim (Option-cases (bound_of host (get plan "maximumBytes"))) [
            | inl e' ↦ absurd (ground arith)
            | inr (maximum', e') ↦
                let same : maximum' ≡ maximum = ground arith in
                let run : admit host maximum' [] [] 0 items ≡ ok (admitted, total) = ground arith in
                let run' : admit host maximum [] [] 0 items ≡ ok (admitted, total) =
                  rw same at run in
                let (fresh, fresh', sum, within) =
                  admit-Fresh host maximum [] [] 0 items (ground arith) run' in
                (h, fresh, fresh', ground arith, within)
          ]
        ]

    -- An export that is complete: every entry of the admitted plan is copied, in order, under names
    -- and paths that are all different, and the total of the manifest is the number of bytes of the
    -- copies and within the plan's bound. A copy has the bytes that were read from a source of the
    -- admitted identity, before, after and still, and was read back with the same digest.
    pub export_complete :
        (roots : Roots) (plan : Fields) (completed : List Completed) (total : ℕ)
        → export host roots attempts plan ≡ ok (complete completed total)
        → (admitted : List Admitted) × (maximum : ℕ) × IsPlanned roots plan admitted total maximum
          × CopiedFirst admitted completed
          × (length completed ≡ length admitted)
          × (sum_of (λ (c : Completed). c.size_bytes) completed ≡ total)
    unfolding export
    export_complete roots plan completed total h =
        elim (Result-cases (admitted_plan host roots plan)) [
          | inr (e, p) ↦ absurd (ground arith)
          | inl ((admitted, total', maximum), p) ↦
              let same_total : total' ≡ total = ground arith in
              let cs : (copy_all host attempts admitted).0 ≡ completed = ground arith in
              let none_left : (copy_all host attempts admitted).1 ≡ none = ground arith in
              let copied = subst (CopiedFirst admitted) cs (copy_all-CopiedFirst admitted) in
              let count = copy_all-length admitted none_left in
              let all : length completed ≡ length admitted = ground arith in
              let q : admitted_plan host roots plan ≡ ok (admitted, total, maximum) = cc in
              let planned = admitted_plan-IsPlanned roots plan q in
              let sum = CopiedFirst-total admitted completed copied all in
              let its_total = planned.3 in (admitted, maximum, planned, copied, all, ground arith)
        ]

    -- An export that stops after the destination is made: the entries that it reports are complete
    -- copies of the first entries of the admitted plan, and together within the plan's bound.
    pub export_incomplete :
        (roots : Roots) (plan : Fields) (completed : List Completed) (error : Error)
        → export host roots attempts plan ≡ ok (incomplete completed error)
        → (admitted : List Admitted) × (total : ℕ) × (maximum : ℕ) × IsPlanned roots plan admitted
            total maximum
          × CopiedFirst admitted completed
          × (sum_of (λ (c : Completed). c.size_bytes) completed ≤ maximum)
    unfolding export
    export_incomplete roots plan completed error h =
        elim (Result-cases (admitted_plan host roots plan)) [
          | inr (e, p) ↦ absurd (ground arith)
          | inl ((admitted, total, maximum), p) ↦
              let cs : (copy_all host attempts admitted).0 ≡ completed = ground arith in
              let copied = subst (CopiedFirst admitted) cs (copy_all-CopiedFirst admitted) in
              let planned = admitted_plan-IsPlanned roots plan p in
              let sum = CopiedFirst-sum admitted completed copied in
              let its_total = planned.3 in
              let within = planned.4 in (admitted, total, maximum, planned, copied, ground arith)
        ]
