-- ===== src/Ring/Position.antt =====
-- Positions on a ring of `n` cells: how the number of items between two of them moves.
use flowcoro.Base.{ℕ, ◌+◌, ◌-◌, ◌%◌, ◌≤◌, ◌<◌, ◌≡◌, arith, mod_twice}

-- Items from the read position `r` up to the write position `w`.
abbrev pub between : ℕ → ℕ → ℕ → ℕ
between n w r = (w + n - r) % n

pub between-lt : (n w r : ℕ) → w < n → between n w r < n
between-lt n w r h = omega arith

-- The write position is found again from the other end.
pub end_of_items : (n w r : ℕ) → w < n → r < n → (r + between n w r) % n ≡ w
end_of_items n w r hw hr = ground (arith, mod_twice n (w + n - r), mod_twice n (r + between n w r))

-- Writing `m` items that fit moves the write position `m` cells on.
pub between-write :
    (n w r m : ℕ)
    → w < n
    → r < n
    → between n w r + m < n
    → between n ((w + m) % n) r ≡ between n w r + m
between-write n w r m hw hr fits =
    ground (arith, mod_twice n (w + n - r), mod_twice n (w + m), mod_twice n ((w + m) % n + n - r))

-- Reading `m` items that are there moves the read position `m` cells on.
pub between-read :
    (n w r m : ℕ)
    → w < n
    → r < n
    → m ≤ between n w r
    → between n w ((r + m) % n) + m ≡ between n w r
between-read n w r m hw hr there =
    ground (arith, mod_twice n (w + n - r), mod_twice n (r + m), mod_twice n (w + n - (r + m) % n))

-- The ring is full exactly when the next write position is the read position.
pub between-full : (n w r : ℕ) → w < n → r < n → (w + 1) % n ≡ r → between n w r + 1 ≡ n
between-full n w r hw hr e = ground (arith, mod_twice n (w + n - r), mod_twice n (w + 1))

pub full-between : (n w r : ℕ) → w < n → r < n → between n w r + 1 ≡ n → (w + 1) % n ≡ r
full-between n w r hw hr e = ground (arith, mod_twice n (w + n - r), mod_twice n (w + 1))

pub between-empty : (n w r : ℕ) → w < n → r < n → between n w r ≡ 0 → w ≡ r
between-empty n w r hw hr e = ground (arith, mod_twice n (w + n - r))

pub between_self : (n r : ℕ) → r < n → between n r r ≡ 0
between_self n r hr = ground (arith, mod_twice n (r + n - r))
