-- ===== src/Stack/Effects.antt =====
-- The steps of the threads, and the effects that they have on the list of nodes.
use mathlib.Core.Path.{subst}
use flowcoro.Base.{
  ℕ, suc, ◌≡◌, refl, ap, sym, ◌∙◌, Bool, true, false, not, ◌&&◌, Option, none, some, List, [], ◌∷◌,
  ◌==◌, update, arith, Bool-cases, inl, inr,
}
use flowcoro.Stack.{
  Thread, is_idle, publishes, loads_head, confirms, loads_next, swings, has_popped, found_empty,
  pushed, popped, was_empty, State, init, goes, Call, push, pop, begin_push, end_push, end_pop,
  advance, Event, steps, step, run,
}
use flowcoro.Stack.Contents.{
  effect_on, replay, Chain, Knows, IsSound, Chain-agree, moved, goes-IsSound,
}

begin_push-IsSound : (s : State) (i item : ℕ) → IsSound s → IsSound (begin_push s i item)
begin_push-IsSound s i item v =
    let new : s.is_published (suc s.made) ≡ false = v.fresh (suc s.made) (omega arith) in
    record {
      contents = v.contents;
      replayed = v.replayed;
      chain =
          Chain-agree s.next (begin_push s i item).next s.is_published s.is_published s.head
            v.contents (λ n o. (ground (arith, o, new), o)) v.chain;
      fresh = λ n a. v.fresh n (omega arith);
      knows =
          moved s (begin_push s i item) i (publishes (suc s.made) s.head) v
            (omega arith, omega arith, new, ground arith, ground arith)
            (λ j e. record {
              made_up = omega arith;
              out_stays = λ n o. (o, ground (arith, o, new));
              own_stays = λ n a o h. (ground (arith, a, o), h, ground (arith, a));
            });
    }

-- A failed exchange loads the head again, and the node that is not published is linked to it.
relink-IsSound :
    (s : State) (i n old : ℕ)
    → Knows s i (publishes n old)
    → IsSound s
    → IsSound (goes (record s { next = update s.next n s.head }) i (publishes n s.head))
relink-IsSound s i n old (a, b, c, d, e) v = record {
  contents = v.contents;
  replayed = v.replayed;
  chain =
      Chain-agree s.next (update s.next n s.head) s.is_published s.is_published s.head v.contents
        (λ m o. (ground (arith, o, c), o)) v.chain;
  fresh = v.fresh;
  knows =
      moved s (record s { next = update s.next n s.head }) i (publishes n s.head) v
        (a, b, c, ground arith, e)
        (λ j f. record {
          made_up = omega arith;
          out_stays = λ m o. (o, ground (arith, o, c));
          own_stays = λ m g o h. (o, h, ground (arith, o, e, f));
        });
}

end_push-IsSound :
    (s : State) (i n old : ℕ)
    → s.head ≡ old
    → Knows s i (publishes n old)
    → IsSound s
    → IsSound (end_push s i n)
end_push-IsSound s i n old at (a, b, c, d, e) v = record {
  contents = n ∷ v.contents;
  replayed = ap (effect_on (pushed n)) v.replayed;
  chain = (
    refl,
    a,
    ground arith,
    subst (λ h. Chain s.next (update s.is_published n true) h v.contents) (at ∙ sym d)
        (Chain-agree s.next s.next s.is_published (update s.is_published n true) s.head v.contents
          (λ m o. (refl, ground (arith, o))) v.chain),
  );
  fresh = λ m k. ground (arith, v.fresh m k, b, k);
  knows = moved s (end_push s i n) i is_idle v tt (λ j f. record {
    made_up = omega arith;
    out_stays = λ m o. (ground (arith, o), refl);
    own_stays = λ m g o h. (o, ground (arith, o, e, f, h), refl);
  });
}

-- The contents behind the top that an exchange takes off.
end_pop-IsSound :
    (s : State) (i h n : ℕ)
    → s.head ≡ h
    → Knows s i (swings h n)
    → IsSound s
    → IsSound (end_pop s i h n)
end_pop-IsSound s i h n at (some_node, a, b) v = by_contents v.contents v.replayed v.chain
  where
    by_contents :
        (l : List ℕ)
        → replay s.effects ≡ some l
        → Chain s.next s.is_published s.head l
        → IsSound (end_pop s i h n)
    by_contents [] r c = absurd (omega (arith, c))
    by_contents (m ∷ l) r (e, f, o, c) = record {
      contents = l;
      replayed = ap (effect_on (popped h)) r ∙ ground (arith, e, at);
      chain = subst (λ k. Chain s.next s.is_published k l) (ap s.next (sym e ∙ at) ∙ b) c;
      fresh = v.fresh;
      knows = moved s (end_pop s i h n) i (has_popped h) v tt (λ j g. record {
        made_up = omega arith;
        out_stays = λ m o. (o, refl);
        own_stays = λ m g o h. (o, h, refl);
      });
    }

loads_head-IsSound :
    (s : State) (i : ℕ) (call : Call) (spurious : Bool)
    → IsSound s
    → IsSound (advance s i call spurious loads_head)
unfolding advance
loads_head-IsSound s i call spurious v = by_contents v.contents v.replayed v.chain
  where
    by_contents :
        (l : List ℕ)
        → replay s.effects ≡ some l
        → Chain s.next s.is_published s.head l
        → IsSound (advance s i call spurious loads_head)
    by_contents [] r c =
        let nothing : (s.head == 0) ≡ true = ground (arith, c) in
        rw (nothing, advance)
          record {
            contents = [];
            replayed = ap (effect_on was_empty) r;
            chain = c;
            fresh = v.fresh;
            knows =
                moved s (record s { effects = was_empty ∷ s.effects }) i found_empty v tt
                  (λ j e. record {
                    made_up = omega arith;
                    out_stays = λ n o. (o, refl);
                    own_stays = λ n a o h. (o, h, refl);
                  });
          }
    by_contents (n ∷ l) r (e, f, o, c) =
        let something : (s.head == 0) ≡ false = ground (arith, e, f) in
        rw (something, advance)
          (goes-IsSound s i (confirms s.head) v (omega (arith, e, f), ap s.is_published e ∙ o))

advance-IsSound :
    (s : State) (i : ℕ) (call : Call) (spurious : Bool) (t : Thread)
    → Knows s i t
    → IsSound s
    → IsSound (advance s i call spurious t)
unfolding advance
advance-IsSound s i (push item) spurious is_idle own v = begin_push-IsSound s i item v
advance-IsSound s i pop spurious is_idle own v = goes-IsSound s i loads_head v tt
advance-IsSound s i call spurious (publishes n old) own v =
    elim (Bool-cases ((s.head == old) && not spurious)) [
      | inl e ↦ rw (e, advance) (end_push-IsSound s i n old (ground (arith, e)) own v)
      | inr e ↦ rw (e, advance) (relink-IsSound s i n old own v)
    ]
advance-IsSound s i call spurious loads_head own v = loads_head-IsSound s i call spurious v
advance-IsSound s i call spurious (confirms h) own v = elim (Bool-cases (s.head == h)) [
  | inl e ↦ rw (e, advance) (goes-IsSound s i (loads_next h) v own)
  | inr e ↦ rw (e, advance) (goes-IsSound s i loads_head v tt)
]
advance-IsSound s i call spurious (loads_next h) (z, a) v =
    goes-IsSound s i (swings h (s.next h)) v (z, a, refl)
advance-IsSound s i call spurious (swings h n) own v =
    elim (Bool-cases ((s.head == h) && not spurious)) [
      | inl e ↦ rw (e, advance) (end_pop-IsSound s i h n (ground (arith, e)) own v)
      | inr e ↦ rw (e, advance) (goes-IsSound s i loads_head v tt)
    ]
advance-IsSound s i call spurious (has_popped h) own v = goes-IsSound s i is_idle v tt
advance-IsSound s i call spurious found_empty own v = goes-IsSound s i is_idle v tt

run-IsSound : (es : List Event) (s : State) → IsSound s → IsSound (run s es)
unfolding run step
run-IsSound [] s v = v
run-IsSound (steps i call spurious ∷ es) s v =
    run-IsSound es (advance s i call spurious (s.thread i))
      (advance-IsSound s i call spurious (s.thread i) (v.knows i) v)

abbrev pub is_allowed : Option (List ℕ) → Bool
is_allowed none = false
is_allowed (some _) = true

-- In every interleaving of pushes and pops, the successful exchanges of the head and the loads
-- that found it null, in their order, are a run of one stack from empty: each pop takes the node
-- that is on top, and each finding of no item comes when there is none.
pub effects_of_stack : (es : List Event) → is_allowed (replay (run init es).effects) ≡ true
unfolding init
effects_of_stack es =
    let v = run-IsSound es init record {
      contents = [];
      replayed = refl;
      chain = refl;
      fresh = λ n a. refl;
      knows = λ i. tt;
    } in
    ap is_allowed v.replayed
