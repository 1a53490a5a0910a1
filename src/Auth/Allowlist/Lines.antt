-- ===== src/Auth/Allowlist/Lines.antt =====
-- auth/allowlist.py: the lines that `_write` makes.
use meme_mcp.Base.{◌≡◌, refl, false, List, [], ◌∷◌, ◌++◌, Text, All}
use meme_mcp.Auth.Allowlist.{is_line_break, splitlines, write}

-- A text without a line break.
abbrev pub IsLine : Text → Type 0
IsLine line = All (λ c. is_line_break c ≡ false) line

pub splitlines-line :
    (line t : Text) → IsLine line → splitlines (line ++ (10 ∷ t)) ≡ line ∷ splitlines t
unfolding splitlines is_line_break
splitlines-line [] t h = refl
splitlines-line (c ∷ line) t h = rw (splitlines-line line t h.1, h.0) refl

-- The lines that are written to the file are read back as they were. None holds a line break.
pub splitlines-write : (lines : List Text) → All IsLine lines → splitlines (write lines) ≡ lines
unfolding write splitlines
splitlines-write [] h = refl
splitlines-write (line ∷ lines) h =
    rw (splitlines-line line (write lines) h.0, splitlines-write lines h.1) refl
