-- ===== src/Base/Strings/Literals.antt =====
-- What the scripts use of the strings that they do not walk themselves: `trim`, and the HTML that a
-- text stands for.
use Prim.Native.Char.{code, Char}
use Prim.Native.String as Str
use Prim.Native.String.{String}
use Prim.Native.Nat.{ℕ}
use mathlib.Core.Bool.{Bool, true, false, ◌&&◌, ◌||◌}
use cidemis.Base.Tests.{leb, ◌==◌, if◌then◌else◌}

-- White space and line ends.
unfoldable pub is_space : ℕ → Bool
is_space c =
    leb 9 c && leb c 13
    || (c == 32
        || (c == 160
            || (c == 0x1680
                || (leb 0x2000 c && leb c 0x200a
                    || (c == 0x2028
                        || (c == 0x2029
                            || (c == 0x202f || (c == 0x205f || (c == 0x3000 || c == 0xfeff)))))))))

unfoldable pub trim_start : String → String
unfolding is_space
trim_start String.[] = String.[]
trim_start (String.◌∷◌ c s) =
    let rest = trim_start s in if is_space (code c) then rest else String.◌∷◌ c s

abbrev is_empty : String → Bool
is_empty String.[] = true
is_empty (String.◌∷◌ c s) = false

unfoldable pub trim_end : String → String
unfolding is_space
trim_end String.[] = String.[]
trim_end (String.◌∷◌ c s) =
    let rest = trim_end s in
    if is_space (code c) && is_empty rest then String.[] else String.◌∷◌ c rest

unfoldable pub trim : String → String
unfolding trim_start trim_end
trim s = trim_end (trim_start s)

abbrev escape_char : Char → String
escape_char c =
    if code c == b'&'
    then "&amp;"
    else if code c == b'<'
    then "&lt;"
    else if code c == b'>'
    then "&gt;"
    else if code c == 160
    then "&nbsp;"
    else String.◌∷◌ c String.[]

-- The inner HTML of an element whose text is set.
unfoldable pub escape_html : String → String
escape_html String.[] = String.[]
escape_html (String.◌∷◌ c s) = Str.◌++◌ (escape_char c) (escape_html s)
