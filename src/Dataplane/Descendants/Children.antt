-- ===== src/Dataplane/Descendants/Children.antt =====
-- The children that `vrfDescendants` notes for each master:
-- daemon/pkg/dataplane/vrf/targetvrf.go.
use iml.Common.{
  ℕ, ◌==◌, ==_iff, ◌≡◌, ◌≢◌, ◌⊎◌, inl, inr, List, [], ◌∷◌, sym, ap, ◌∙◌, Bool-cases, if_cases,
  ==_false,
}
use mathlib.Core.List.{Memᴰ}
use mathlib.Core.List.Memᴰ
use mathlib.Core.List.Memᴰ.{head, tail}
use iml.Dataplane.Descendants.{Link, add_child, group_children}
use iml.Dataplane.Descendants.Invariant.{Child}

add_child-keeps :
    (l : Link) (children : ℕ → List Link) (m : ℕ) (c : Link)
    → Memᴰ c (children m)
    → Memᴰ c (add_child l children m)
unfolding add_child
add_child-keeps l children m c h =
    if_cases (Memᴰ c) (m == l.master) (λ e. Memᴰ.append_left (l ∷ []) h) (λ e. h)

add_child-adds :
    (l : Link) (children : ℕ → List Link) (c : Link)
    → c ≡ l
    → Memᴰ c (add_child l children c.master)
unfolding add_child
add_child-adds l children c same =
    if_cases (Memᴰ c) (c.master == l.master)
      (λ e. Memᴰ.append_right (children c.master) (head same))
      (λ e. absurd (==_false c.master l.master e (ap (λ k. k.master) same)))

add_child-cases :
    (l : Link) (children : ℕ → List Link) (m : ℕ) (c : Link)
    → Memᴰ c (add_child l children m)
    → Memᴰ c (children m) ⊎ ((c ≡ l) × (m ≡ l.master))
unfolding add_child
add_child-cases l children m c =
    if_cases (λ cs. Memᴰ c cs → Memᴰ c (children m) ⊎ ((c ≡ l) × (m ≡ l.master))) (m == l.master)
      (λ e h. elim (Memᴰ.append_cases (children m) h) [
        | inl k ↦ inl k
        | inr k ↦ inr (Memᴰ.eq_of_singleton k, (==_iff m l.master).0 e)
      ])
      (λ e h. inl h)

-- Every link with a master is among the children of its master, and no other one.
pub group_children-holds :
    (ls : List Link) (children : ℕ → List Link) (c : Link)
    → Memᴰ c (children c.master) ⊎ (Memᴰ c ls × (c.master ≢ 0))
    → Memᴰ c (group_children ls children c.master)
unfolding group_children
group_children-holds [] children c h = elim h [ inl m ↦ m | inr p ↦ elim p.0 [ ] ]
group_children-holds (l ∷ ls) children c h = elim (Bool-cases (l.master == 0)) [
  | inl e ↦ rw e (
      group_children-holds ls children c (elim h [
        | inl m ↦ inl m
        | inr p ↦ elim (Memᴰ.cases_cons p.0) [
          | inl q ↦ absurd (p.1 (ap (λ k. k.master) q ∙ (==_iff l.master 0).0 e))
          | inr t ↦ inr (t, p.1)
        ]
      ]))
  | inr e ↦ rw e (
      group_children-holds ls (add_child l children) c (elim h [
        | inl m ↦ inl (add_child-keeps l children c.master c m)
        | inr p ↦ elim (Memᴰ.cases_cons p.0) [
          | inl q ↦ inl (add_child-adds l children c q)
          | inr t ↦ inr (t, p.1)
        ]
      ]))
]

pub group_children-Child :
    (links ls : List Link) (children : ℕ → List Link)
    → ((m : ℕ) (c : Link) → Memᴰ c (children m) → Child links m c)
    → ((c : Link) → Memᴰ c ls → Memᴰ c links)
    → (m : ℕ) (c : Link) → Memᴰ c (group_children ls children m)
    → Child links m c
unfolding group_children
group_children-Child links [] children all sub m c h = all m c h
group_children-Child links (l ∷ ls) children all sub m c h = elim (Bool-cases (l.master == 0)) [
  | inl e ↦ group_children-Child links ls children all (λ d k. sub d (tail k)) m c (rw e at h)
  | inr e ↦
      group_children-Child links ls (add_child l children)
        (λ n d k. elim (add_child-cases l children n d k) [
          | inl t ↦ all n d t
          | inr p ↦ (
            ap (λ j. j.master) p.0 ∙ sym p.1,
            (sub d (head p.0), λ z. ==_false l.master 0 e (sym (ap (λ j. j.master) p.0) ∙ z)),
          )
        ])
        (λ d k. sub d (tail k)) m c (rw e at h)
]
