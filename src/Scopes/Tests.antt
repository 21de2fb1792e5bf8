-- ===== src/Scopes/Tests.antt =====
-- Scope payloads that are accepted and refused, and the theorem on them there.
use goatrouter.Common.{◌≡◌, ◌↔◌, refl, List, [], ◌∷◌, Text, codes, text_eq}
use goatrouter.Scopes.{has, is_client_scope, valid, invalid_scope, collect, assert_scopes}
use goatrouter.Scopes.Assert.{items_of, IsScopes, assert_scopes_iff}
use goatrouter.Value.{array}

abbrev two_scopes : List Text
two_scopes = codes "models.read" ∷ codes "admin" ∷ []

two_scopes_accepted : assert_scopes (array (items_of two_scopes)) ≡ valid two_scopes
unfolding assert_scopes collect is_client_scope has text_eq
two_scopes_accepted = refl

duplicate_refused :
    assert_scopes (array (items_of (codes "admin" ∷ two_scopes))) ≡ invalid_scope "scopes-duplicate"
unfolding assert_scopes collect is_client_scope has text_eq
duplicate_refused = refl

assert_scopes_iff_example :
    (assert_scopes (array (items_of two_scopes)) ≡ valid two_scopes)
    ↔ IsScopes (array (items_of two_scopes)) two_scopes
assert_scopes_iff_example = assert_scopes_iff (array (items_of two_scopes)) two_scopes
