-- ===== src/Strings/Examples.antt =====
-- The string functions on short texts.
use web_tester.Prelude.{◌≡◌, refl, [], ◌∷◌, Text, codes}
use web_tester.Strings.Explode.{explode, explode-join}

abbrev fifteen_digits : Text
fifteen_digits = codes "123456789012345"

explode-join_example : explode 32 (codes "10 20") ≡ codes "10" ∷ codes "20" ∷ []
explode-join_example =
    explode-join 32 (codes "10") (codes "20" ∷ []) ((refl, (refl, tt)), ((refl, (refl, tt)), tt))
