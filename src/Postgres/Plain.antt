-- ===== src/Postgres/Plain.antt =====
-- Values that a connection string (internal/postgresql/connection.go), which quotes nothing, gives to
-- the driver as they are.
use Prim.Native.Char.{Char, code}
use Prim.Native.String.{[], ◌∷◌}
use k8s_postgresql_operator.Prelude.{String, Bool, true, not, ◌&&◌, ◌||◌, ◌==◌, eqb, leb}
use k8s_postgresql_operator.Startup.Texts.{is_space}

-- Neither a control character nor a space, a quote or a backslash.
unfoldable is_plain_char : Char → Bool
unfolding is_space
is_plain_char c = leb 33 (code c) && not (is_space c || eqb (code c) 39 || eqb (code c) 92)

unfoldable has_plain_chars : String → Bool
unfolding is_plain_char
has_plain_chars [] = true
has_plain_chars (c ∷ s) = is_plain_char c && has_plain_chars s

-- A value that is not empty and needs no quotes.
unfoldable pub is_plain : String → Bool
unfolding has_plain_chars
is_plain s = not (s == "") && has_plain_chars s
