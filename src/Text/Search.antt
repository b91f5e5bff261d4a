-- ===== src/Text/Search.antt =====
-- What the searches find in a text that is put together.
use flowcoro.Base.{ℕ, ◌≡◌, refl, true, some, [], ◌∷◌, ◌++◌, arith}
use flowcoro.Text.{Text, split_at, split_on, text_eq, lacks}

pub text_eq_self : (s : Text) → text_eq s s ≡ true
text_eq_self [] = refl
text_eq_self (x ∷ s) = ground (arith, text_eq_self s)

pub text_eq_sound : (s t : Text) → text_eq s t ≡ true → s ≡ t
text_eq_sound [] [] h = refl
text_eq_sound [] (y ∷ t) h = cc
text_eq_sound (x ∷ s) [] h = cc
text_eq_sound (x ∷ s) (y ∷ t) h = ground (arith, text_eq_sound s t)

pub lacks-append :
    (c : ℕ) (s t : Text) → lacks c s ≡ true → lacks c t ≡ true → lacks c (s ++ t) ≡ true
lacks-append c [] t hs ht = ht
lacks-append c (x ∷ s) t hs ht = ground (arith, lacks-append c s t)

pub split_at-append :
    (c : ℕ) (s t : Text) → lacks c s ≡ true → split_at c (s ++ (c ∷ t)) ≡ some (s, t)
unfolding split_at
split_at-append c [] t h = ground arith
split_at-append c (x ∷ s) t h = ground (arith, split_at-append c s t)

pub split_on-append :
    (c : ℕ) (s t : Text) → lacks c s ≡ true → split_on c (s ++ (c ∷ t)) ≡ s ∷ split_on c t
unfolding split_on
split_on-append c [] t h = ground arith
split_on-append c (x ∷ s) t h = ground (arith, split_on-append c s t)

pub split_on-last :
    (c x : ℕ) (s : Text) → lacks c (x ∷ s) ≡ true → split_on c (x ∷ s) ≡ (x ∷ s) ∷ []
unfolding split_on
split_on-last c x [] h = ground arith
split_on-last c x (y ∷ s) h = ground (arith, split_on-last c y s)
