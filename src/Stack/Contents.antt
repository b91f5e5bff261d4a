-- ===== src/Stack/Contents.antt =====
-- The list of nodes behind the head, and what each thread knows of its nodes.
use mathlib.Core.Path.{subst}
use flowcoro.Base.{
  ℕ, ◌≡◌, ◌≤◌, ◌<◌, refl, sym, ◌∙◌, Bool, true, false, Option, none, some, List, [], ◌∷◌, ◌==◌,
  if◌then◌else◌, update, arith, Bool-cases, inl, inr,
}
use flowcoro.Stack.{
  Thread, is_idle, publishes, loads_head, confirms, loads_next, swings, has_popped, found_empty,
  Effect, pushed, popped, was_empty, State, goes,
}

-- A stack of nodes, the top first: an effect that it does not allow gives `none`.
abbrev pub take_effect : Effect → List ℕ → Option (List ℕ)
take_effect (pushed n) l = some (n ∷ l)
take_effect (popped n) [] = none
take_effect (popped n) (m ∷ l) = if m == n then some l else none
take_effect was_empty [] = some []
take_effect was_empty (m ∷ l) = none

abbrev pub effect_on : Effect → Option (List ℕ) → Option (List ℕ)
effect_on e none = none
effect_on e (some l) = take_effect e l

abbrev pub replay : List Effect → Option (List ℕ)
replay [] = some []
replay (e ∷ es) = effect_on e (replay es)

-- From node `h` on the nodes are linked as in the list.
abbrev pub Chain : (ℕ → ℕ) → (ℕ → Bool) → ℕ → List ℕ → Type 0
Chain next out h [] = h ≡ 0
Chain next out h (n ∷ l) = (h ≡ n) × (0 < n) × (out n ≡ true) × Chain next out (next n) l

abbrev pub Knows : State → ℕ → Thread → Type 0
Knows s i is_idle = Unit {0}
Knows s i (publishes n old) =
    (0 < n) × (n ≤ s.made) × (s.is_published n ≡ false) × (s.next n ≡ old) × (s.maker n ≡ i)
Knows s i loads_head = Unit {0}
Knows s i (confirms h) = (0 < h) × (s.is_published h ≡ true)
Knows s i (loads_next h) = (0 < h) × (s.is_published h ≡ true)
Knows s i (swings h n) = (0 < h) × (s.is_published h ≡ true) × (s.next h ≡ n)
Knows s i (has_popped h) = Unit {0}
Knows s i found_empty = Unit {0}

pub record IsSound (s : State) : Type 0 where
  pub contents : List ℕ
  pub replayed : replay s.effects ≡ some contents
  pub chain : Chain s.next s.is_published s.head contents
  pub fresh : (n : ℕ) → s.made < n → s.is_published n ≡ false
  pub knows : (i : ℕ) → Knows s i (s.thread i)

pub Chain-agree :
    (next next' : ℕ → ℕ) (out out' : ℕ → Bool) (h : ℕ) (l : List ℕ)
    → ((n : ℕ) → out n ≡ true → (next' n ≡ next n) × (out' n ≡ true))
    → Chain next out h l
    → Chain next' out' h l
Chain-agree next next' out out' h [] same c = c
Chain-agree next next' out out' h (n ∷ l) same (a, b, o, c) = (
  a,
  b,
  (same n o).1,
  Chain-agree next next' out out' (next' n) l same
      (subst (λ k. Chain next out k l) (sym (same n o).0) c),
)

-- How a step of another thread may change what thread `j` looks at.
pub record Grows (s r : State) (j : ℕ) : Type 0 where
  pub made_up : s.made ≤ r.made
  pub out_stays :
      (n : ℕ) → s.is_published n ≡ true → (r.is_published n ≡ true) × (r.next n ≡ s.next n)
  pub own_stays :
      (n : ℕ)
      → n ≤ s.made
      → s.maker n ≡ j
      → s.is_published n ≡ false
      → (r.maker n ≡ j) × (r.is_published n ≡ false) × (r.next n ≡ s.next n)

Knows-later : {s r : State} {j : ℕ} (t : Thread) → Grows s r j → Knows s j t → Knows r j t
Knows-later is_idle g v = v
Knows-later (publishes n old) g (a, b, c, d, e) =
    let (e', c', d') = g.own_stays n b e c in (a, omega (arith, g.made_up), c', d' ∙ d, e')
Knows-later loads_head g v = v
Knows-later (confirms h) g (z, a) = (z, (g.out_stays h a).0)
Knows-later (loads_next h) g (z, a) = (z, (g.out_stays h a).0)
Knows-later (swings h n) g (z, a, b) = let (a', b') = g.out_stays h a in (z, a', b' ∙ b)
Knows-later (has_popped h) g v = v
Knows-later found_empty g v = v

pub moved :
    (s r : State) (i : ℕ) (t : Thread)
    → IsSound s
    → Knows r i t
    → ((j : ℕ) → (i == j) ≡ false → Grows s r j)
    → (j : ℕ) → Knows r j (update s.thread i t j)
moved s r i t v own others j = elim (Bool-cases (i == j)) [
  | inl e ↦ rw e (subst (λ x. Knows r x t) (ground (arith, e)) own)
  | inr e ↦ rw e (Knows-later (s.thread j) (others j e) (v.knows j))
]

pub goes-IsSound : (s : State) (i : ℕ) (t : Thread) → IsSound s → Knows s i t → IsSound (goes s i t)
goes-IsSound s i t v own = record {
  contents = v.contents;
  replayed = v.replayed;
  chain = v.chain;
  fresh = v.fresh;
  knows = moved s s i t v own (λ j e. record {
    made_up = omega arith;
    out_stays = λ n o. (o, refl);
    own_stays = λ n a o h. (o, h, refl);
  });
}
