-- ===== src/Memory/Moves.antt =====
-- The steps that move a block keep what holds of all blocks.
use flowcoro.Base.{
  ℕ, suc, ◌+◌, ◌-◌, ◌≡◌, ◌≢◌, ◌<◌, refl, sym, ap, ◌∙◌, Bool, true, false, List, [], ◌∷◌, ◌==◌, leb,
  if◌then◌else◌, update, occurrences, arith, Bool-cases, inl, inr, add64,
}
use mathlib.Core.Path.{subst}
use flowcoro.Memory.{
  Place, is_idle, swaps, counts_down, tests_count, frees, pushes, counts_up, Where, nowhere,
  in_hand, moving, listed, Memory, goes, tail_of, popped, reads, linked, pushed, freed,
  deallocate_begin, num_size_classes, get_size_class_index, header_size,
}
use flowcoro.Memory.Blocks.{IsLinked, listed_in, in_hands, Knows, IsSound, moved}

-- Only the place changes.
pub goes-IsSound : (m : Memory) (t : ℕ) (k : Place) → IsSound m → Knows m t k → IsSound (goes m t k)
goes-IsSound m t k v own = record {
  chains = v.chains;
  members = v.members;
  held = v.held;
  dead = v.dead;
  null = v.null;
  knows =
      moved m m t k v own
        (λ d e. record { stays = λ b h. (h, refl); old = λ i size h n at fresh. (fresh, refl) });
}

-- A write to a block that is in no list leaves the lists as they are.
IsLinked-update :
    (next : ℕ → ℕ) (b x h : ℕ) (bs : List ℕ)
    → occurrences b bs ≡ 0
    → IsLinked next h bs
    → IsLinked (update next b x) h bs
IsLinked-update next b x h [] none v = v
IsLinked-update next b x h (c ∷ bs) none (e, some_block, later) =
    let other : (b == c) ≡ false = ground (arith, none) in
    let same : update next b x c ≡ next c = ground (arith, other) in
    (
      e,
      some_block,
      IsLinked-update next b x (update next b x c) bs (ground (arith, none))
          (subst (λ y. IsLinked next y bs) (sym same) later),
    )

tail-IsLinked :
    (next : ℕ → ℕ) (h : ℕ) (bs : List ℕ)
    → h ≢ 0
    → IsLinked next h bs
    → IsLinked next (next h) (tail_of bs)
      × ((b : ℕ) → occurrences b bs ≡ (if h == b then 1 else 0) + occurrences b (tail_of bs))
tail-IsLinked next h [] some_block v = absurd (some_block v)
tail-IsLinked next h (c ∷ bs) some_block (e, _, later) =
    (subst (λ y. IsLinked next (next y) bs) (sym e) later, λ b. ground (arith, e))

listed_at : (i : ℕ) (w : Where) → 0 < listed_in i w → w ≡ listed i
listed_at i nowhere h = absurd (omega arith)
listed_at i in_hand h = absurd (omega arith)
listed_at i (moving t) h = absurd (omega arith)
listed_at i (listed j) h = elim (Bool-cases (i == j)) [
  | inl e ↦ let same : j ≡ i = ground (arith, e) in ap listed same
  | inr e ↦ absurd (ground (arith, e, h))
]

-- The block that the list is popped of was in the list.
pub popped_listed : (m : Memory) (i h : ℕ) → m.head i ≡ h → h ≢ 0 → IsSound m → m.spot h ≡ listed i
popped_listed m i h at some_block v =
    let (rest, counts) =
      tail-IsLinked m.next h (m.chain i) some_block
        (subst (λ y. IsLinked m.next y (m.chain i)) at (v.chains i)) in
    listed_at i (m.spot h) (ground (arith, counts h, v.members i h))

pub popped-IsSound :
    (m : Memory) (t i size h n : ℕ)
    → m.head i ≡ h
    → m.stale t ≡ false
    → Knows m t (swaps i size h n)
    → IsSound m
    → IsSound (popped m t i size h n)
unfolding popped
popped-IsSound m t i size h n at fresh (some_block, exact) v =
    let (rest, counts) =
      tail-IsLinked m.next h (m.chain i) some_block
        (subst (λ y. IsLinked m.next y (m.chain i)) at (v.chains i)) in
    let is_listed : m.spot h ≡ listed i = popped_listed m i h at some_block v in
    record {
      chains = λ j. elim (Bool-cases (j == i)) [
        | inl e ↦
            let same : j ≡ i = ground (arith, e) in
            let now : update m.head i n j ≡ m.next h = ground (arith, e, exact fresh) in
            rw (e, now) rest
        | inr e ↦
            let now : update m.head i n j ≡ m.head j = ground (arith, e) in rw (e, now) (v.chains j)
      ];
      members = λ j b. ground (arith, counts b, v.members j b, v.members i b, is_listed);
      held = λ b. ground (arith, v.held b, is_listed);
      dead = λ b gone. ground (arith, v.dead b gone, is_listed);
      null = v.null;
      knows = moved m (popped m t i size h n) t (counts_down i) v tt (λ d e. record {
        stays = λ b own. (ground (arith, own, is_listed), refl);
        old = λ i size h n place fresh. (fresh, refl);
      });
    }

pub given-IsSound :
    (m : Memory) (t asked size given : ℕ)
    → given ≢ 0
    → m.live given ≡ false
    → IsSound m
    → IsSound (record m {
      size = update m.size given asked;
      room = update m.room given (add64 header_size asked);
      live = update m.live given true;
      place = update m.place t is_idle;
      holders = update m.holders given (suc (m.holders given));
      wanted = update m.wanted given size;
      spot = update m.spot given in_hand;
    })
given-IsSound m t asked size given some_block unused v =
    let was : m.spot given ≡ nowhere = v.dead given unused in
    record {
      chains = v.chains;
      members = λ j b. ground (arith, v.members j b, was);
      held = λ b. ground (arith, v.held b, was);
      dead = λ b gone. ground (arith, v.dead b, gone, was);
      null = ground (arith, v.null, some_block);
      knows =
          moved m
            (record m {
              size = update m.size given asked;
              room = update m.room given (add64 header_size asked);
              live = update m.live given true;
              place = update m.place t is_idle;
              holders = update m.holders given (suc (m.holders given));
              wanted = update m.wanted given size;
              spot = update m.spot given in_hand;
            })
            t is_idle v tt
            (λ d e. record {
              stays = λ b own. (ground (arith, own, was), refl);
              old = λ i size h n place fresh. (fresh, refl);
            });
    }

pub linked-IsSound :
    (m : Memory) (t i b h : ℕ) → m.spot b ≡ moving t → IsSound m → IsSound (linked m t i b h)
unfolding linked
linked-IsSound m t i b h own v = record {
  chains = λ j.
      IsLinked-update m.next b h (m.head j) (m.chain j) (ground (arith, v.members j b, own))
        (v.chains j);
  members = v.members;
  held = v.held;
  dead = v.dead;
  null = v.null;
  knows =
      moved m (linked m t i b h) t (pushes i b h) v (own, ground arith)
        (λ d e. record {
          stays = λ c mine. (mine, ground (arith, mine, own, e));
          old = λ j size c n place fresh.
              (ground (arith, fresh), ground (arith, fresh, ap (reads b) place));
        });
}

pub pushed-IsSound :
    (m : Memory) (t i b h : ℕ)
    → m.head i ≡ h
    → Knows m t (pushes i b h)
    → IsSound m
    → IsSound (pushed m t i b)
unfolding pushed
pushed-IsSound m t i b h at (own, links_on) v = record {
  chains = λ j. elim (Bool-cases (j == i)) [
    | inl e ↦
        let now : update m.head i b j ≡ b = ground (arith, e) in
        rw (e, now)
          (
            refl,
            some_block,
            subst (λ y. IsLinked m.next y (m.chain i)) (at ∙ sym links_on) (v.chains i),
          )
    | inr e ↦
        let now : update m.head i b j ≡ m.head j = ground (arith, e) in rw (e, now) (v.chains j)
  ];
  members = λ j c. ground (arith, v.members j c, v.members j b, v.members i b, own);
  held = λ c. ground (arith, v.held c, own);
  dead = λ c gone. ground (arith, v.dead c gone, own);
  null = v.null;
  knows = moved m (pushed m t i b) t (counts_up i) v tt (λ d e. record {
    stays = λ c mine. (ground (arith, mine, own, e), refl);
    old = λ i size h n place fresh. (fresh, refl);
  });
}
  where
    some_block : b ≢ 0
    some_block = λ e. ground (arith, v.dead 0 v.null, own, e)

pub freed-IsSound : (m : Memory) (t b : ℕ) → m.spot b ≡ moving t → IsSound m → IsSound (freed m t b)
unfolding freed
freed-IsSound m t b own v = record {
  chains = v.chains;
  members = λ j c. ground (arith, v.members j c, own);
  held = λ c. ground (arith, v.held c, own);
  dead = λ c gone. ground (arith, v.dead c, gone);
  null = ground (arith, v.null);
  knows = moved m (freed m t b) t is_idle v tt (λ d e. record {
    stays = λ c mine. (ground (arith, mine, own, e), refl);
    old = λ i size h n place fresh. (fresh, refl);
  });
}

pub deallocate_begin-IsSound :
    (m : Memory) (t b : ℕ) → 0 < m.holders b → IsSound m → IsSound (deallocate_begin m t b)
unfolding deallocate_begin
deallocate_begin-IsSound m t b held v = record {
  chains = v.chains;
  members = λ j c. ground (arith, v.members j c, was);
  held = λ c. ground (arith, v.held c, was);
  dead = λ c gone. ground (arith, v.dead c gone, was);
  null = v.null;
  knows =
      moved m (deallocate_begin m t b) t
        (if leb num_size_classes (get_size_class_index (m.size b))
          then frees b
          else tests_count (get_size_class_index (m.size b)) b)
        v (either (leb num_size_classes (get_size_class_index (m.size b))))
        (λ d e. record {
          stays = λ c mine. (ground (arith, mine, was), refl);
          old = λ i size h n place fresh. (fresh, refl);
        });
}
  where
    in_hand_of : (w : Where) → 0 < in_hands w → w ≡ in_hand
    in_hand_of nowhere h = absurd (omega arith)
    in_hand_of in_hand h = refl
    in_hand_of (moving t) h = absurd (omega arith)
    in_hand_of (listed i) h = absurd (omega arith)

    was : m.spot b ≡ in_hand
    was = in_hand_of (m.spot b) (omega (arith, v.held b))

    either :
        (large : Bool)
        → Knows
            (record m {
              holders = update m.holders b (m.holders b - 1);
              spot = update m.spot b (moving t);
            })
            t
            (if large then frees b else tests_count (get_size_class_index (m.size b)) b)
    either true = ground arith
    either false = ground arith
