-- ===== src/Pool/Cleanup.antt =====
-- What the clean-up of idle connections leaves.
use flowcoro.Base.{
  occurrences, ℕ, zero, suc, ◌+◌, ◌≤◌, ◌<◌, ◌≡◌, refl, true, List, [], ◌∷◌, ◌++◌, arith, length,
  ltb, word, sub64, ltb→lt, inl, inr, ◌⊎◌,
}
use flowcoro.Pool.Leases.{occurrences-without-le}
use flowcoro.Pool.Capacity.{length-without-le}
use flowcoro.Pool.State.{Pool, without, remove_connection}
use flowcoro.Pool.Upkeep.{clean, cleanup}

-- In a set a removal takes away one connection at most.
length-without-ge : (c : ℕ) (xs : List ℕ) → length xs ≤ length (without c xs) + occurrences c xs
unfolding without
length-without-ge c [] = omega arith
length-without-ge c (x ∷ xs) = ground (arith, length-without-ge c xs)

-- `all_connections_` is a set, as `std::unordered_set` keeps it, of a size that a word can hold.
pub record IsRoomy (p : Pool) (removed : ℕ) : Type 0 where
  pub set : (c : ℕ) → occurrences c p.all ≤ 1
  pub fits : length p.all < word
  pub enough : p.min_connections ≤ length p.all
  pub counted : (p.min_connections ≡ 0) ⊎ (removed ≤ length p.all)

-- What the wrapped difference of the source's test says when it does not wrap.
more_than : (least n r : ℕ) → n < word → r ≤ n → ltb least (sub64 n r) ≡ true → least + r < n
more_than least n r fits le h = by_value (ltb→lt least (sub64 n r) h)
  where
    by_value : least < sub64 n r → least + r < n
    by_value g = omega arith

-- A round that drops a connection.
remove-IsRoomy :
    (p : Pool) (c : ℕ) (rest : List ℕ) (removed : ℕ)
    → IsRoomy p removed
    → ltb p.min_connections (sub64 (length p.all) removed) ≡ true
    → IsRoomy (remove_connection (record p { idle = rest }) c) (removed + 1)
unfolding remove_connection
remove-IsRoomy p c rest removed v h = record {
  set = λ d. ground (arith, v.set d, occurrences-without-le d c p.all);
  fits = ground (arith, v.fits, length-without-le c p.all);
  enough = by_count v.counted;
  counted = still v.counted;
}
  where
    by_count :
        ((p.min_connections ≡ 0) ⊎ (removed ≤ length p.all))
        → p.min_connections ≤ length (without c p.all)
    by_count (inl z) = omega arith
    by_count (inr r) = ground (
      arith,
      more_than p.min_connections (length p.all) removed v.fits r h,
      v.set c,
      length-without-ge c p.all,
    )

    still :
        ((p.min_connections ≡ 0) ⊎ (removed ≤ length p.all))
        → (p.min_connections ≡ 0) ⊎ (removed + 1 ≤ length (without c p.all))
    still (inl z) = inl z
    still (inr r) = ground (
      arith,
      more_than p.min_connections (length p.all) removed v.fits r h,
      v.set c,
      length-without-ge c p.all,
    )

clean-min_at :
    (fuel : ℕ) (p : Pool) (now : ℕ) (kept : List ℕ) (removed : ℕ) (queue : List ℕ)
    → p.idle ≡ queue
    → ((q : Pool) (kept : List ℕ) (removed : ℕ)
        → IsRoomy q removed
        → q.min_connections ≤ length (clean fuel q now kept removed).0.all)
    → IsRoomy p removed
    → p.min_connections ≤ length (clean (suc fuel) p now kept removed).0.all
unfolding clean remove_connection
clean-min_at fuel p now kept removed [] e ih v = ground (arith, v.enough)
clean-min_at fuel p now kept removed (c ∷ rest) e ih v = ground (arith, dropped, stays)
  where
    popped : Pool
    popped = record p { idle = rest }

    stays : p.min_connections ≤ length (clean fuel popped now (kept ++ (c ∷ [])) removed).0.all
    stays =
        ih popped (kept ++ (c ∷ [])) removed
          (record { set = v.set; fits = v.fits; enough = v.enough; counted = v.counted })

    dropped :
        ltb p.min_connections (sub64 (length p.all) removed) ≡ true
        → p.min_connections
          ≤ length (clean fuel (remove_connection popped c) now kept (removed + 1)).0.all
    dropped h =
        ih (remove_connection popped c) kept (removed + 1) (remove-IsRoomy p c rest removed v h)

clean-min :
    (fuel : ℕ) (p : Pool) (now : ℕ) (kept : List ℕ) (removed : ℕ)
    → IsRoomy p removed
    → p.min_connections ≤ length (clean fuel p now kept removed).0.all
unfolding clean
clean-min zero p now kept removed v = v.enough
clean-min (suc fuel) p now kept removed v =
    clean-min_at fuel p now kept removed p.idle refl
      (λ q kept removed w. clean-min fuel q now kept removed w) v

-- If no connection is in the set twice and its size is below `2 ^ 64` and at least
-- `min_connections`, a clean-up leaves it at least that large.
pub cleanup_keeps_minimum :
    (p : Pool) (now : ℕ)
    → ((c : ℕ) → occurrences c p.all ≤ 1)
    → length p.all < word
    → p.min_connections ≤ length p.all
    → p.min_connections ≤ length (cleanup p now).all
unfolding cleanup
cleanup_keeps_minimum p now single fits enough =
    clean-min (length p.idle) p now [] 0
      (record { set = single; fits = fits; enough = enough; counted = inr (omega arith) })
