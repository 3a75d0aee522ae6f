-- ===== src/Ocf/PollScheduler/Paths.antt =====
-- The href of a path: `'/' + '/'.join(path)`.
use Prim.Native.String.{String, ◌++◌}
use mathlib.Core.List.{List, [], ◌∷◌}

join_slash : List String → String
join_slash [] = ""
join_slash (a ∷ []) = a
join_slash (a ∷ b ∷ rest) = a ++ ("/" ++ join_slash (b ∷ rest))

unfoldable pub href_of : List String → String
unfolding join_slash
href_of path = "/" ++ join_slash path
