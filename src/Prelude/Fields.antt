-- ===== src/Prelude/Fields.antt =====
-- strings.Fields.
use mathlib.Core.List.{List, [], ◌∷◌, ◌++◌}
use pulse_data.Prelude.Tests.{if◌then◌else◌}
use pulse_data.Prelude.Text.{Text, is_space}

abbrev close : Text → List Text → List Text
close [] parts = parts
close (c ∷ word) parts = (c ∷ word) ∷ parts

-- The words of a text after the characters of a word.
unfoldable pub fields_from : Text → Text → List Text
unfolding is_space
fields_from word [] = close word []
fields_from word (c ∷ s) =
    let closed = close word (fields_from [] s) in
    let longer = fields_from (word ++ (c ∷ [])) s in if is_space c then closed else longer

unfoldable pub fields : Text → List Text
unfolding fields_from
fields s = fields_from [] s
