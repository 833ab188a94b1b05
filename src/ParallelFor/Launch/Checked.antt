-- ===== src/ParallelFor/Launch/Checked.antt =====
-- A descriptor that passes `kupl_parallel_for_check` of src/mt/kupl_parallel_for.cpp.
use kupl.Prelude.{
  ◌≡◌, refl, ap, subst, ◌∙◌, arith, Bool, true, false, not, ◌||◌, Bool-cases, inl, inr, or_false,
  if_passed, some, if◌then◌else◌,
}
use kupl.Prelude.Int.{pos, ◌<ℤ◌, eqb_ℤ}
use kupl.ParallelFor.Check.{Policy, kupl_check_range}
use kupl.ParallelFor.Range.{NdRange}
use kupl.ParallelFor.Launch.{
  Desc, Env, kupl_concurrency_default, has_default_fields, bad_policy, check_range, egroup_ok,
  check_concurrency, kupl_parallel_for_check,
}

not-false : (b : Bool) → not b ≡ false → b ≡ true
not-false true h = refl
not-false false h = absurd (ground arith)

else_passed :
    (b : Bool) (x y : Desc × Bool) → b ≡ false → (if b then x else y).1 ≡ true → y.1 ≡ true
else_passed true x y e h = cc
else_passed false x y e h = h

check_range-passed :
    (policy : Policy) (range : NdRange)
    → (check_range policy (some range)).1 ≡ true
    → ((kupl_check_range range policy).1 ≡ true)
      × ((check_range policy (some range)).0 ≡ some (kupl_check_range range policy).0)
unfolding check_range
check_range-passed policy range h =
    let (good, ok) = if_passed (bad_policy policy range.dim) (some range) _ h in rw good (ok, refl)

check_concurrency-passed :
    (env : Env) (desc : Desc)
    → pos 0 <ℤ env.g_concurrency_default
    → (check_concurrency env desc).1 ≡ true
    → let c = (check_concurrency env desc).0 in
      (c.range ≡ desc.range) × (c.egroup ≡ desc.egroup) × (pos 0 <ℤ c.concurrency)
unfolding check_concurrency
check_concurrency-passed env desc p h =
    elim (Bool-cases (eqb_ℤ desc.concurrency kupl_concurrency_default)) [
      | inl given ↦ rw given (refl, refl, p)
      | inr own ↦
          let h' = else_passed (eqb_ℤ desc.concurrency kupl_concurrency_default) _ _ own h in
          rw own (refl, refl, ground (arith, h'))
    ]

-- What a descriptor that passes the check looks like afterwards.
pub record IsChecked (desc c : Desc) (range : NdRange) : Type 0 where
  pub accepted : (kupl_check_range range desc.policy).1 ≡ true
  pub range_set : c.range ≡ some (kupl_check_range range desc.policy).0
  pub egroup_kept : c.egroup ≡ desc.egroup
  pub inhabited : egroup_ok desc.egroup ≡ true
  pub some_threads : pos 0 <ℤ c.concurrency

pub kupl_parallel_for_check-IsChecked :
    (env : Env) (desc : Desc) (range : NdRange)
    → pos 0 <ℤ env.g_concurrency_default
    → desc.range ≡ some range
    → (kupl_parallel_for_check env true desc).1 ≡ true
    → IsChecked desc (kupl_parallel_for_check env true desc).0 range
unfolding kupl_parallel_for_check
kupl_parallel_for_check-IsChecked env desc range p e h =
    let (fields, h2) = if_passed (not true || not (has_default_fields desc.field_mask)) desc _ h in
    let out = check_range desc.policy desc.range in
    let checked : Desc = record desc { range = out.0 } in
    let (guard, h3) = if_passed (not out.1 || not (egroup_ok desc.egroup)) checked _ h2 in
    let (no_bad, no_empty) = or_false (not out.1) (not (egroup_ok desc.egroup)) guard in
    let (ok, set) =
      check_range-passed desc.policy range
        (subst (λ o. (check_range desc.policy o).1 ≡ true) e (not-false out.1 no_bad)) in
    let (r, g, k) = check_concurrency-passed env checked p h3 in
    rw (fields, guard)
      (record {
        accepted = ok;
        range_set = r ∙ ap (λ o. (check_range desc.policy o).0) e ∙ set;
        egroup_kept = g;
        inhabited = not-false (egroup_ok desc.egroup) no_empty;
        some_threads = k;
      })
