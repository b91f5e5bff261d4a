-- ===== src/StringBuffer/Tests.antt =====
-- The buffer on concrete texts.
use flowcoro.Base.{ℕ, List, [], ◌∷◌}
use flowcoro.StringBuffer.History.{appends, appends_char, formats, clears, Op}

abbrev garbage : ℕ → ℕ
garbage i = 170

abbrev hello : List ℕ
hello = b'h' ∷ b'e' ∷ b'l' ∷ b'l' ∷ b'o' ∷ []

abbrev calls : List Op
calls = appends hello ∷ clears ∷ formats hello ∷ appends_char b'!' ∷ appends hello ∷ []
