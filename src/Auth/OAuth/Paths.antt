-- ===== src/Auth/OAuth/Paths.antt =====
-- Which return paths the service accepts, and which of them the table does.
use jiuyue.Base.{
  text_key, nat_key, ◌==◌, length, String, ◌≡◌, true, false, not, some, List, [], ◌∷◌, ℕ, arith,
}
use jiuyue.Chat.Ident.{codes}
use jiuyue.Auth.Store.OAuth.{path_allowed, redirect_allowed}
use jiuyue.Auth.OAuth.SignIn.{is_relative_path, starts_slash, starts_slashes}

path_allowed-slash :
    (cs : List ℕ)
    → starts_slash cs ≡ true
    → starts_slashes cs ≡ false
    → path_allowed cs ≡ not (length cs == 1)
path_allowed-slash [] h k = ground arith
path_allowed-slash (c ∷ []) h k = ground arith
path_allowed-slash (c ∷ d ∷ cs) h k = ground arith

-- Of the paths that the service accepts the table refuses exactly one: the slash alone, the root.
pub redirect_allowed-is_relative_path :
    (path : String)
    → is_relative_path path ≡ true
    → redirect_allowed (some path) ≡ not (length (codes path) == 1)
unfolding is_relative_path
redirect_allowed-is_relative_path path h =
    path_allowed-slash (codes path) (ground (arith, h)) (ground (arith, h))
