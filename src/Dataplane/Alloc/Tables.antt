-- ===== src/Dataplane/Alloc/Tables.antt =====
-- The routing tables handed out: `TableAllocator` of daemon/pkg/dataplane/alloc.go.
use iml.Common.{
  ℕ, zero, suc, ◌+◌, ◌-◌, ◌%◌, ◌^◌, ◌<◌, ◌≡◌, ◌≢◌, leb, arith, refl, ◌∙◌, Bool-cases, inl, inr,
}
use iml.Common.Results.{ok}
use iml.Dataplane.Alloc.{TableAllocator, new_table_allocator, allocate_table}

-- The allocator after a number of calls, and the table that the next call returns.
unfoldable pub after_calls : ℕ → TableAllocator → TableAllocator
after_calls zero ta = ta
after_calls (suc n) ta = (allocate_table (after_calls n ta)).1

abbrev pub table_of : ℕ → TableAllocator → ℕ
table_of n ta = (allocate_table (after_calls n ta)).0

table_of-suc : (n : ℕ) (ta : TableAllocator) → table_of (suc n) ta ≡ (table_of n ta + 1) % 2 ^ 32
unfolding after_calls allocate_table
table_of-suc n ta = refl

new_table_allocator-ok :
    (first : ℕ) (ta : TableAllocator)
    → new_table_allocator first ≡ ok ta
    → (255 < first) × (ta.last_assigned ≡ first - 1)
unfolding new_table_allocator
new_table_allocator-ok first ta h = elim (Bool-cases (leb first 255)) [
  | inl e ↦ let k = rw (e, new_table_allocator) at h in cc
  | inr e ↦ let k = rw (e, new_table_allocator) at h in (ground (arith, e), cc)
]

table_of-sum :
    (first n : ℕ) (ta : TableAllocator)
    → 255 < first
    → ta.last_assigned ≡ first - 1
    → table_of n ta ≡ (first + n) % 2 ^ 32
unfolding after_calls allocate_table
table_of-sum first zero ta h e = rw e (omega arith)
table_of-sum first (suc n) ta h e =
    table_of-suc n ta ∙ rw (table_of-sum first n ta h e) (omega arith)

-- A table allocator made for a first table returns, on its call number n from 0, the table n after the
-- first one, which is above the 255 tables that the kernel reserves and no other call's, as long as
-- the number fits into 32 bits.
pub table_of_distinct :
    (first n k : ℕ) (ta : TableAllocator)
    → new_table_allocator first ≡ ok ta
    → first + n < 2 ^ 32
    → k < n
    → (table_of n ta ≡ first + n) × ((255 < table_of n ta) × (table_of k ta ≢ table_of n ta))
table_of_distinct first n k ta h b l =
    let (high, last) = new_table_allocator-ok first ta h in
    let t = table_of-sum first n ta high last in
    let u = table_of-sum first k ta high last in
    (omega (arith, t), (omega (arith, t), λ e. omega (arith, t, u, e)))
