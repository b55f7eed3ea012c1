-- ===== src/Node/Mempool/Depth.antt =====
-- mempool.rs: the depth of `visit` in `remove_with_descendants`.
use fluxd_rust.Prelude.{
  ℕ, zero, suc, ◌+◌, ◌≤◌, ◌<◌, ◌≡◌, refl, sym, ap, ◌∙◌, List, [], ◌∷◌, ◌++◌, true, false,
  Bool-cases, Option-cases, inl, inr, length, none, some, if◌then◌else◌, arith,
}
use fluxd_rust.Prelude.HashMap.{contains, find}
use fluxd_rust.Storage.Memory.{same_bytes}
use fluxd_rust.Node.Mempool.{Hash256, hash_key, Mempool}
use fluxd_rust.Node.Mempool.Claims.{contains_behind}
use fluxd_rust.Node.Mempool.Removal.{Visited, visit, visit_each, descendants}

-- The keys of the map that are not visited yet.
unvisited : List (Hash256 × List Hash256) → List Hash256 → ℕ
unvisited [] visited = 0
unvisited ((k, cs) ∷ children) visited =
    let rest = unvisited children visited in if contains visited k then rest else suc rest

-- What is visited stays visited.
abbrev Grows : List Hash256 → List Hash256 → Type 0
Grows a b = (x : Hash256) → contains a x ≡ true → contains b x ≡ true

unvisited_anti :
    (children : List (Hash256 × List Hash256)) (a b : List Hash256)
    → Grows a b
    → unvisited children b ≤ unvisited children a
unfolding unvisited
unvisited_anti [] a b g = omega arith
unvisited_anti ((k, cs) ∷ children) a b g = ground (arith, unvisited_anti children a b g, g k)

unvisited_all : (children : List (Hash256 × List Hash256)) → unvisited children [] ≤ length children
unfolding unvisited contains
unvisited_all [] = omega arith
unvisited_all ((k, cs) ∷ children) = omega (arith, unvisited_all children)

-- A key of the map that is visited is one less to visit.
unvisited_less :
    (children : List (Hash256 × List Hash256)) (visited cs : List Hash256) (t : Hash256)
    → contains visited t ≡ false
    → find children t ≡ some cs
    → unvisited children (t ∷ visited) < unvisited children visited
unfolding unvisited find contains
unvisited_less [] visited cs t new here = absurd cc
unvisited_less ((k, below) ∷ children) visited cs t new here = elim (Bool-cases (same_bytes t k)) [
  | inl same ↦
      let e : t ≡ k = (hash_key.same_iff t k).0 same in
      let back : same_bytes k t ≡ true = (hash_key.same_iff k t).1 (sym e) in
      let fresh : contains visited k ≡ false = rw (sym e) new in
      ground (
        arith,
        back,
        fresh,
        unvisited_anti children visited (t ∷ visited) (λ x. contains_behind x t visited),
      )
  | inr other ↦ ground (arith, unvisited_less children visited cs t new (rw other at here))
]

module _ (children : List (Hash256 × List Hash256)) where
  visit_each-Grows :
      (one : Hash256 → Visited → Visited)
      → ((t : Hash256) (s : Visited) → Grows s.0 (one t s).0)
      → (cs : List Hash256) (s : Visited) → Grows s.0 (visit_each one cs s).0
  unfolding visit_each
  visit_each-Grows one g [] s x h = h
  visit_each-Grows one g (c ∷ cs) s x h = visit_each-Grows one g cs (one c s) x (g c s x h)

  visit-Grows : (fuel : ℕ) (t : Hash256) (s : Visited) → Grows s.0 (visit fuel children t s).0
  unfolding visit
  visit-Grows zero t s x h = h
  visit-Grows (suc fuel) t s x h = elim (Bool-cases (contains s.0 t)) [
    | inl old ↦ rw old h
    | inr new ↦
        let below : List Hash256 = elim (find children t) [ none ↦ [] | some cs ↦ cs ] in
        rw new (
          visit_each-Grows (visit fuel children) (visit-Grows fuel) below (t ∷ s.0, s.1) x
            (contains_behind x t s.0 h))
  ]

  -- Two ways to visit one transaction that agree while there is fuel agree on a list of them.
  visit_each_stable :
      (fuel : ℕ)
      → ((t : Hash256) (s : Visited)
          → unvisited children s.0 < fuel
          → visit fuel children t s ≡ visit (suc fuel) children t s)
      → (cs : List Hash256) (s : Visited) → unvisited children s.0 < fuel
      → visit_each (visit fuel children) cs s ≡ visit_each (visit (suc fuel) children) cs s
  unfolding visit_each
  visit_each_stable fuel same [] s enough = refl
  visit_each_stable fuel same (c ∷ cs) s enough =
      let fewer = unvisited_anti children s.0 (visit fuel children c s).0 (visit-Grows fuel c s) in
      visit_each_stable fuel same cs (visit fuel children c s) (omega (arith, fewer, enough))
      ∙ ap (visit_each (visit (suc fuel) children) cs) (same c s enough)

  visit_stable :
      (fuel : ℕ) (t : Hash256) (s : Visited)
      → unvisited children s.0 < fuel
      → visit fuel children t s ≡ visit (suc fuel) children t s
  unfolding visit visit_each
  visit_stable zero t s enough = absurd (omega arith)
  visit_stable (suc fuel) t s enough = elim (Bool-cases (contains s.0 t)) [
    | inl old ↦ rw old refl
    | inr new ↦ elim (Option-cases (find children t)) [
      | inl leaf ↦ rw (new, leaf) refl
      | inr found ↦
          let fewer = unvisited_less children s.0 found.0 t new found.1 in
          let each =
            visit_each_stable fuel (visit_stable fuel) found.0 (t ∷ s.0, s.1)
              (omega (arith, fewer, enough)) in
          rw (new, found.1) (ap (λ (r : Visited). (r.0, r.1 ++ (t ∷ []))) each)
    ]
  ]

module _ {F : Type 0} where
  -- The fuel of `descendants` is enough: a visit with any more of it gives the same order of removal.
  pub descendants_enough :
      (p : Mempool F) (txid : Hash256) (extra : ℕ)
      → (visit (suc (length p.children) + extra) p.children txid ([], [])).1 ≡ descendants p txid
  unfolding descendants
  descendants_enough p txid zero =
      ap (λ fuel. (visit fuel p.children txid ([], [])).1) (omega arith)
  descendants_enough p txid (suc extra) =
      let fuel = suc (length p.children) + extra in
      let next : suc (length p.children) + suc extra ≡ suc fuel = omega arith in
      let all = unvisited_all p.children in
      ap (λ k. (visit k p.children txid ([], [])).1) next
      ∙ ap (λ (r : Visited). r.1)
          (sym (visit_stable p.children fuel txid ([], []) (omega (arith, all))))
      ∙ descendants_enough p txid extra
