-- ===== src/Hazard/Nodes.antt =====
-- What holds of the blocks, the retired nodes and the threads in every interleaving.
use flowcoro.Base.{
  ℕ, ◌*◌, ◌≡◌, ◌≤◌, ◌<◌, refl, ◌∙◌, ◌⊎◌, inl, inr, Bool, true, false, not, ◌&&◌, List, [], ◌∷◌,
  ◌==◌, has, update, arith, Bool-cases,
}
use mathlib.Core.Path.{subst}
use flowcoro.Hazard.{
  slots_per_thread, Status, is_free, is_owned, is_linked, is_taken, is_retired, Client, is_idle,
  loads_head, publishes, begins_pop, protects, confirms, loads_next, swings, retires, counts, scans,
  releases, State, goes,
}
use flowcoro.Hazard.Lists.{distinct}

-- Whether a block has been published and not given back since.
abbrev pub in_use : Status → Bool
in_use is_free = false
in_use (is_owned t) = false
in_use is_linked = true
in_use (is_taken t) = true
in_use (is_retired t) = true

-- The nodes that `next` links from a head, each of them once.
abbrev pub links : (ℕ → ℕ) → ℕ → List ℕ → Bool
links next h [] = h == 0
links next h (a ∷ rest) = (h == a) && not (a == 0) && not (has a rest) && links next (next a) rest

-- The node through which a thread reads, 0 for none.
abbrev pub uses : Client → ℕ
uses (loads_next h) = h
uses (swings h n) = h
uses _ = 0

-- What thread `c` knows at each place.
abbrev pub Knows : State → ℕ → Client → Type 0
Knows s c (loads_head a) = (s.status a ≡ is_owned c) × ((a == 0) ≡ false)
Knows s c (publishes a h) = (s.status a ≡ is_owned c) × ((a == 0) ≡ false)
Knows s c (protects h) = (h == 0) ≡ false
Knows s c (confirms h) = ((h == 0) ≡ false) × (s.hazard (slots_per_thread * c) ≡ h)
Knows s c (loads_next h) =
    ((h == 0) ≡ false)
    × (s.hazard (slots_per_thread * c) ≡ h)
    × (in_use (s.status h) ≡ true)
    × (c < s.registered)
Knows s c (swings h n) =
    ((h == 0) ≡ false)
    × (s.hazard (slots_per_thread * c) ≡ h)
    × (in_use (s.status h) ≡ true)
    × (c < s.registered)
    × (s.next h ≡ n)
Knows s c (retires h) = s.status h ≡ is_taken c
Knows s c _ = Unit {0}

-- A scan, at slot `k`, has seen or will see the hazard of thread `d`, which reads through node `u`.
abbrev pub Covers : List ℕ → ℕ → ℕ → Client → Type 0
Covers retired u d (scans p n k found) =
    (u == 0) ≡ false
    → has u retired ≡ true
    → (has u found ≡ true) ⊎ ((k ≤ slots_per_thread * d) × (d < n))
Covers retired u d _ = Unit {0}

pub record IsSound (s : State) : Type 0 where
  pub linked : links s.next s.head s.chain ≡ true
  pub chain_linked : (a : ℕ) → has a s.chain ≡ true → s.status a ≡ is_linked
  pub retired_status : (t a : ℕ) → has a (s.retired t) ≡ true → s.status a ≡ is_retired t
  pub once : (t : ℕ) → distinct (s.retired t) ≡ true
  pub knows : (c : ℕ) → Knows s c (s.thread c)
  pub covers : (t d : ℕ) → Covers (s.retired t) (uses (s.thread d)) d (s.thread t)

-- How a step of another thread may change what thread `d` looks at.
pub record Grows (s r : State) (d : ℕ) : Type 0 where
  pub more : s.registered ≤ r.registered
  pub hazard_same : r.hazard (slots_per_thread * d) ≡ s.hazard (slots_per_thread * d)
  pub owned_stays : (a : ℕ) → s.status a ≡ is_owned d → r.status a ≡ is_owned d
  pub taken_stays : (a : ℕ) → s.status a ≡ is_taken d → r.status a ≡ is_taken d
  pub used_stays :
      (h : ℕ)
      → (h == 0) ≡ false
      → uses (s.thread d) ≡ h
      → in_use (s.status h) ≡ true
      → (in_use (r.status h) ≡ true) × (r.next h ≡ s.next h)

pub Knows-later :
    {s r : State} {d : ℕ} (k : Client) → s.thread d ≡ k → Grows s r d → Knows s d k → Knows r d k
Knows-later is_idle at g v = v
Knows-later (loads_head a) at g (o, z) = (g.owned_stays a o, z)
Knows-later (publishes a h) at g (o, z) = (g.owned_stays a o, z)
Knows-later (begins_pop p) at g v = v
Knows-later (protects h) at g v = v
Knows-later (confirms h) at g (z, e) = (z, g.hazard_same ∙ e)
Knows-later (loads_next h) at g (z, e, u, b) =
    let (u', same) = g.used_stays h z (rw at refl) u in
    (z, g.hazard_same ∙ e, u', omega (arith, b, g.more))
Knows-later (swings h n) at g (z, e, u, b, x) =
    let (u', same) = g.used_stays h z (rw at refl) u in
    (z, g.hazard_same ∙ e, u', omega (arith, b, g.more), same ∙ x)
Knows-later (retires h) at g v = g.taken_stays h v
Knows-later (counts p) at g v = v
Knows-later (scans p n k found) at g v = v
Knows-later (releases p) at g v = v

-- A thread moves on; the others know what they knew.
pub moved :
    (s r : State) (c : ℕ) (k : Client)
    → IsSound s
    → Knows r c k
    → ((d : ℕ) → (c == d) ≡ false → Grows s r d)
    → (d : ℕ) → Knows r d (update s.thread c k d)
moved s r c k v own others d = elim (Bool-cases (c == d)) [
  | inl e ↦ rw e (subst (λ x. Knows r x k) (ground (arith, e)) own)
  | inr e ↦ rw e (Knows-later (s.thread d) refl (others d e) (v.knows d))
]

Covers-less :
    (retired : List ℕ) (u w d : ℕ) (k : Client)
    → ((w == 0) ≡ false → has w retired ≡ true → u ≡ w)
    → Covers retired u d k
    → Covers retired w d k
Covers-less retired u w d (scans p n k found) same v = λ z r. ground (arith, same z r, v)
Covers-less retired u w d is_idle same v = v
Covers-less retired u w d (loads_head a) same v = v
Covers-less retired u w d (publishes a h) same v = v
Covers-less retired u w d (begins_pop p) same v = v
Covers-less retired u w d (protects h) same v = v
Covers-less retired u w d (confirms h) same v = v
Covers-less retired u w d (loads_next h) same v = v
Covers-less retired u w d (swings h n) same v = v
Covers-less retired u w d (retires h) same v = v
Covers-less retired u w d (counts p) same v = v
Covers-less retired u w d (releases p) same v = v

-- What thread `c` does with its retired nodes and its place leaves the scans of the others right
-- if the node that it comes to use is not retired.
pub covered :
    (s : State) (c : ℕ) (k : Client) (retired : ℕ → List ℕ)
    → IsSound s
    → ((t : ℕ) → (c == t) ≡ false → retired t ≡ s.retired t)
    → ((t : ℕ)
        → (uses k == 0) ≡ false
        → has (uses k) (s.retired t) ≡ true
        → uses (s.thread c) ≡ uses k)
    → ((d : ℕ) → Covers (retired c) (uses (update s.thread c k d)) d k)
    → (t d : ℕ) → Covers (retired t) (uses (update s.thread c k d)) d (update s.thread c k t)
covered s c k retired v others fresh own t d = elim (Bool-cases (c == t)) [
  | inl e ↦ rw e (
      subst (λ x. Covers (retired x) (uses (update s.thread c k d)) d k) (ground (arith, e))
        (own d))
  | inr e ↦
      rw (e, others t e)
        (elim (Bool-cases (c == d)) [
          | inl f ↦ rw f (
              Covers-less (s.retired t) (uses (s.thread c)) (uses k) d (s.thread t) (fresh t) (
                subst (λ x. Covers (s.retired t) (uses (s.thread c)) x (s.thread t))
                  (ground (arith, f)) (v.covers t c)))
          | inr f ↦ rw f (v.covers t d)
        ])
]

-- Nothing but the place changes.
pub goes-IsSound :
    (s : State) (c : ℕ) (k : Client)
    → IsSound s
    → Knows s c k
    → ((t : ℕ)
        → (uses k == 0) ≡ false
        → has (uses k) (s.retired t) ≡ true
        → uses (s.thread c) ≡ uses k)
    → ((d : ℕ) → Covers (s.retired c) (uses (update s.thread c k d)) d k)
    → IsSound (goes s c k)
goes-IsSound s c k v own fresh cov = record {
  linked = v.linked;
  chain_linked = v.chain_linked;
  retired_status = v.retired_status;
  once = v.once;
  knows = moved s s c k v own (λ d e. record {
    more = omega arith;
    hazard_same = refl;
    owned_stays = λ a h. h;
    taken_stays = λ a h. h;
    used_stays = λ h z u i. (i, refl);
  });
  covers = covered s c k s.retired v (λ t e. refl) fresh cov;
}

-- The new place reads through no node.
pub rests-IsSound :
    (s : State) (c : ℕ) (k : Client)
    → IsSound s
    → Knows s c k
    → uses k ≡ 0
    → ((d : ℕ) → Covers (s.retired c) (uses (update s.thread c k d)) d k)
    → IsSound (goes s c k)
rests-IsSound s c k v own none = goes-IsSound s c k v own (λ t z. absurd (ground (arith, none, z)))

-- The head is linked, and what follows it is.
pub head_linked : (s : State) → IsSound s → (s.head == 0) ≡ false → s.status s.head ≡ is_linked
head_linked s v z = head_linked_at s.chain refl
  where
    head_linked_at : (xs : List ℕ) → s.chain ≡ xs → s.status s.head ≡ is_linked
    head_linked_at [] e =
        absurd (ground (arith, subst (λ xs. links s.next s.head xs ≡ true) e v.linked, z))
    head_linked_at (a ∷ rest) e = ground (
      arith,
      subst (λ xs. links s.next s.head xs ≡ true) e v.linked,
      subst (λ xs. has a xs ≡ true → s.status a ≡ is_linked) e (v.chain_linked a),
    )

-- A thread that reads through a node has it in its slot.
pub reader :
    (s : State) (d : ℕ) (k : Client)
    → Knows s d k
    → (uses k == 0) ≡ false
    → (s.hazard (slots_per_thread * d) ≡ uses k)
      × (d < s.registered)
      × (in_use (s.status (uses k)) ≡ true)
reader s d (loads_next h) (z, e, u, b) n = (e, b, u)
reader s d (swings h m) (z, e, u, b, x) n = (e, b, u)
reader s d is_idle v n = absurd (cc)
reader s d (loads_head a) v n = absurd (cc)
reader s d (publishes a h) v n = absurd (cc)
reader s d (begins_pop p) v n = absurd (cc)
reader s d (protects h) v n = absurd (cc)
reader s d (confirms h) v n = absurd (cc)
reader s d (retires h) v n = absurd (cc)
reader s d (counts p) v n = absurd (cc)
reader s d (scans p m k found) v n = absurd (cc)
reader s d (releases p) v n = absurd (cc)

-- A thread that reads through no node any more needs no cover.
pub Covers-moved :
    (thread : ℕ → Client) (c d : ℕ) (k l : Client) (retired : List ℕ)
    → uses k ≡ 0
    → Covers retired (uses (thread d)) d l
    → Covers retired (uses (update thread c k d)) d l
Covers-moved thread c d k l retired none v = elim (Bool-cases (c == d)) [
  | inl e ↦
      rw e (
        Covers-less retired (uses (thread d)) (uses k) d l (λ z. absurd (ground (arith, none, z)))
          v)
  | inr e ↦ rw e v
]
