-- ===== src/Hazard/Scans.antt =====
-- The steps of the hazards, of `retire` and of `scan` keep what holds of the blocks.
use flowcoro.Base.{
  ℕ, suc, ◌*◌, ◌≡◌, ◌<◌, refl, inl, inr, true, false, List, [], ◌∷◌, ◌++◌, ◌==◌, has, eq→==,
  if◌then◌else◌, update, arith, Bool-cases,
}
use mathlib.Core.Path.{subst}
use flowcoro.Hazard.{
  slots_per_thread, is_taken, is_retired, Client, scans, releases, State, goes, kept, reclaimed,
}
use flowcoro.Hazard.Lists.{has-append_one, distinct-append_one, has-kept, distinct-kept}
use flowcoro.Hazard.Nodes.{
  in_use, uses, reader, Covers-moved, Knows, Covers, IsSound, moved, covered, rests-IsSound,
}

-- The hazard of a thread is set or cleared.
pub hazard-IsSound :
    (s : State) (c h : ℕ) (k : Client)
    → IsSound s
    → uses k ≡ 0
    → Knows (record s { hazard = update s.hazard (slots_per_thread * c) h }) c k
    → ((d : ℕ) → Covers (s.retired c) (uses (update s.thread c k d)) d k)
    → IsSound (goes (record s { hazard = update s.hazard (slots_per_thread * c) h }) c k)
hazard-IsSound s c h k v none own cov = record {
  linked = v.linked;
  chain_linked = v.chain_linked;
  retired_status = v.retired_status;
  once = v.once;
  knows =
      moved s (record s { hazard = update s.hazard (slots_per_thread * c) h }) c k v own
        (λ d e. record {
          more = omega arith;
          hazard_same = ground (arith, e);
          owned_stays = λ b h. h;
          taken_stays = λ b h. h;
          used_stays = λ a n u i. (i, refl);
        });
  covers = covered s c k s.retired v (λ t e. refl) (λ t z. absurd (ground (arith, none, z))) cov;
}

-- `retire` has put the node into the list.
pub retired-IsSound :
    (s : State) (c h : ℕ) (k : Client)
    → IsSound s
    → s.status h ≡ is_taken c
    → uses k ≡ 0
    → ((r : State) → Knows r c k)
    → ((d : ℕ) → Covers (s.retired c ++ h ∷ []) (uses (update s.thread c k d)) d k)
    → IsSound (
        goes
          (record s {
            retired = update s.retired c (s.retired c ++ h ∷ []);
            status = update s.status h (is_retired c);
          })
          c
          k)
retired-IsSound s c h k v taken none own cov = record {
  linked = v.linked;
  chain_linked = λ a e. ground (arith, v.chain_linked a e, taken);
  retired_status =
      λ t a e. ground (arith, v.retired_status t a, e, taken, has-append_one a h (s.retired c));
  once = λ t. elim (Bool-cases (c == t)) [
    | inl e ↦ rw e (distinct-append_one h (s.retired c) new (v.once c))
    | inr e ↦ rw e (v.once t)
  ];
  knows =
      moved s
        (record s {
          retired = update s.retired c (s.retired c ++ h ∷ []);
          status = update s.status h (is_retired c);
        })
        c k v
        (own (record s {
          retired = update s.retired c (s.retired c ++ h ∷ []);
          status = update s.status h (is_retired c);
        }))
        (λ d e. record {
          more = omega arith;
          hazard_same = refl;
          owned_stays = λ a o. ground (arith, o, taken);
          taken_stays = λ a o. ground (arith, o, taken, e);
          used_stays = λ a n u i. (ground (arith, i), refl);
        });
  covers =
      covered s c k (update s.retired c (s.retired c ++ h ∷ [])) v (λ t e. ground (arith, e))
        (λ t z. absurd (ground (arith, none, z))) (λ d. rw (eq→== c c refl) (cov d));
}
  where
    new : has h (s.retired c) ≡ false
    new = elim (Bool-cases (has h (s.retired c))) [
      | inl e ↦ absurd (ground (arith, v.retired_status c h e, taken))
      | inr e ↦ e
    ]

-- The scan has gone through all slots: what it gives back is used by no thread.
pub reclaimed-IsSound :
    (s : State) (c p n k : ℕ) (found : List ℕ)
    → IsSound s
    → s.thread c ≡ scans p n k found
    → ((d : ℕ) → d < s.registered → d < n → slots_per_thread * d < k)
    → IsSound (
        goes
          (record s {
            retired = update s.retired c (kept found (s.retired c));
            status = reclaimed s.status (s.retired c) found;
          })
          c
          (releases p))
reclaimed-IsSound s c p n k found v at over = record {
  linked = v.linked;
  chain_linked = λ a e. ground (arith, v.chain_linked a e, v.retired_status c a);
  retired_status = λ t a e. elim (Bool-cases (c == t)) [
    | inl same ↦ ground (arith, v.retired_status t a, e, same, has-kept a found (s.retired c))
    | inr other ↦ ground (arith, v.retired_status t a, v.retired_status c a, e, other)
  ];
  once = λ t. elim (Bool-cases (c == t)) [
    | inl e ↦ rw e (distinct-kept found (s.retired c) (v.once c))
    | inr e ↦ rw e (v.once t)
  ];
  knows =
      moved s
        (record s {
          retired = update s.retired c (kept found (s.retired c));
          status = reclaimed s.status (s.retired c) found;
        })
        c (releases p) v tt
        (λ d e. record {
          more = omega arith;
          hazard_same = refl;
          owned_stays = λ a o. ground (arith, o, v.retired_status c a);
          taken_stays = λ a o. ground (arith, o, v.retired_status c a);
          used_stays = λ a z u i. (used d a z u i, refl);
        });
  covers =
      covered s c (releases p) (update s.retired c (kept found (s.retired c))) v
        (λ t e. ground (arith, e)) (λ t z. absurd (cc)) (λ d. tt);
}
  where
    used :
        (d a : ℕ)
        → (a == 0) ≡ false
        → uses (s.thread d) ≡ a
        → in_use (s.status a) ≡ true
        → in_use (reclaimed s.status (s.retired c) found a) ≡ true
    used d a z u i =
        let (_, there, _) = reader s d (s.thread d) (v.knows d) (rw u z) in
        let covers = subst (λ t. Covers (s.retired c) (uses (s.thread d)) d t) at (v.covers c d) in
        ground (arith, covers (rw u z), u, i, over d there)

-- A load of slot `k`: if it is that of a thread that reads through a retired node, the node is found.
pub scanned-IsSound :
    (s : State) (c p n k : ℕ) (found : List ℕ)
    → IsSound s
    → s.thread c ≡ scans p n k found
    → IsSound (goes s c (scans p n (suc k) (if s.hazard k == 0 then found else s.hazard k ∷ found)))
scanned-IsSound s c p n k found v at =
    rests-IsSound s c next v tt refl
      (λ d. Covers-moved s.thread c d next next (s.retired c) refl (more d))
  where
    next : Client
    next = scans p n (suc k) (if s.hazard k == 0 then found else s.hazard k ∷ found)

    more : (d : ℕ) → Covers (s.retired c) (uses (s.thread d)) d next
    more d z r =
        let (e, _, _) = reader s d (s.thread d) (v.knows d) z in
        let covers = subst (λ t. Covers (s.retired c) (uses (s.thread d)) d t) at (v.covers c d) in
        ground (arith, covers z r, e, z)
