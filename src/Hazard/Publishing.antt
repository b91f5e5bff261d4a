-- ===== src/Hazard/Publishing.antt =====
-- The exchanges of a push and a pop keep what holds of the blocks.
use flowcoro.Base.{
  ℕ, ◌≡◌, refl, ◌∙◌, inl, inr, true, false, List, [], ◌∷◌, ◌==◌, drop, has, update, arith,
  Bool-cases,
}
use mathlib.Core.Path.{subst}
use flowcoro.Hazard.{
  is_owned, is_linked, is_taken, is_idle, publishes, swings, retires, State, goes,
}
use flowcoro.Hazard.Nodes.{links, Knows, IsSound, moved, covered}

links-update :
    (next : ℕ → ℕ) (a h x : ℕ) (xs : List ℕ)
    → has a xs ≡ false
    → links (update next a h) x xs ≡ links next x xs
links-update next a h x [] e = refl
links-update next a h x (y ∷ ys) e = ground (arith, links-update next a h (next y) ys)

not_linked : (s : State) (c a : ℕ) → IsSound s → s.status a ≡ is_owned c → has a s.chain ≡ false
not_linked s c a v o = elim (Bool-cases (has a s.chain)) [
  | inl e ↦ absurd (ground (arith, v.chain_linked a e, o))
  | inr e ↦ e
]

-- A push that has published its node.
pub published-IsSound :
    (s : State) (c a : ℕ)
    → IsSound s
    → Knows s c (publishes a s.head)
    → IsSound (
        goes
          (record s {
            head = a;
            next = update s.next a s.head;
            status = update s.status a is_linked;
            chain = a ∷ s.chain;
          })
          c
          is_idle)
published-IsSound s c a v (o, z) = record {
  linked =
      ground
        (arith, z, not_linked s c a v o, links-update s.next a s.head s.head s.chain, v.linked);
  chain_linked = λ b e. ground (arith, v.chain_linked b, e);
  retired_status = λ t b e. ground (arith, v.retired_status t b e, o);
  once = v.once;
  knows =
      moved s
        (record s {
          head = a;
          next = update s.next a s.head;
          status = update s.status a is_linked;
          chain = a ∷ s.chain;
        })
        c is_idle v tt
        (λ d e. record {
          more = omega arith;
          hazard_same = refl;
          owned_stays = λ b h. ground (arith, h, o, e);
          taken_stays = λ b h. ground (arith, h, o);
          used_stays = λ h n u i. (ground (arith, i), ground (arith, i, o));
        });
  covers = covered s c is_idle s.retired v (λ t e. refl) (λ t n. absurd (cc)) (λ d. tt);
}

-- A push whose exchange fails has only written its own node.
pub unpublished-IsSound :
    (s : State) (c a h : ℕ)
    → IsSound s
    → Knows s c (publishes a h)
    → IsSound (goes (record s { next = update s.next a h }) c (publishes a s.head))
unpublished-IsSound s c a h v (o, z) = record {
  linked = links-update s.next a h s.head s.chain (not_linked s c a v o) ∙ v.linked;
  chain_linked = v.chain_linked;
  retired_status = v.retired_status;
  once = v.once;
  knows =
      moved s (record s { next = update s.next a h }) c (publishes a s.head) v (o, z)
        (λ d e. record {
          more = omega arith;
          hazard_same = refl;
          owned_stays = λ b h. h;
          taken_stays = λ b h. h;
          used_stays = λ h n u i. (i, ground (arith, i, o));
        });
  covers =
      covered s c (publishes a s.head) s.retired v (λ t e. refl) (λ t n. absurd (cc)) (λ d. tt);
}

-- The first node is the head, and the others follow.
links_first :
    (s : State) (h : ℕ)
    → IsSound s
    → (h == 0) ≡ false
    → s.head ≡ h
    → (xs : List ℕ) → s.chain ≡ xs
    → (links s.next (s.next h) (drop 1 s.chain) ≡ true)
      × (has h (drop 1 s.chain) ≡ false)
      × ((b : ℕ) → has b (drop 1 s.chain) ≡ true → has b s.chain ≡ true)
      × (has h s.chain ≡ true)
links_first s h v z at [] e =
    absurd (ground (arith, subst (λ xs. links s.next s.head xs ≡ true) e v.linked, z))
links_first s h v z at (a ∷ rest) e =
    let l = subst (λ xs. links s.next s.head xs ≡ true) e v.linked in
    rw e (ground (arith, l), ground (arith, l), λ b i. ground (arith, i), ground (arith, l))

-- A pop that has moved the head.
pub swung-IsSound :
    (s : State) (c h n : ℕ)
    → IsSound s
    → Knows s c (swings h n)
    → s.head ≡ h
    → IsSound (
        goes
          (record s { head = n; status = update s.status h (is_taken c); chain = drop 1 s.chain })
          c
          (retires h))
swung-IsSound s c h n v (z, p, u, b, x) at =
    let (l, out, back, first) = links_first s h v z at s.chain refl in
    let was = v.chain_linked h first in
    record {
      linked = subst (λ m. links s.next m (drop 1 s.chain) ≡ true) x l;
      chain_linked = λ a e. ground (arith, v.chain_linked a (back a e), out, e);
      retired_status = λ t a e. ground (arith, v.retired_status t a e, was);
      once = v.once;
      knows =
          moved s
            (record s { head = n; status = update s.status h (is_taken c); chain = drop 1 s.chain })
            c (retires h) v (ground arith)
            (λ d e. record {
              more = omega arith;
              hazard_same = refl;
              owned_stays = λ a o. ground (arith, o, was);
              taken_stays = λ a o. ground (arith, o, was);
              used_stays = λ a n u i. (ground (arith, i), refl);
            });
      covers = covered s c (retires h) s.retired v (λ t e. refl) (λ t n. absurd (cc)) (λ d. tt);
    }
