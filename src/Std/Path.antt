-- ===== src/Std/Path.antt =====
-- Package path, and `filepath.Ext` on Unix. A path is cut at its slashes, and the elements are
-- resolved on a stack, as the documentation of `path.Clean` lists its rules.
pub mod Clean
pub mod Elements
pub mod Split
use audio_streaming_service.Common.{
  ◌≡◌, refl, Bool, true, false, not, ◌&&◌, List, [], ◌∷◌, ◌++◌, reverse, ◌==◌, if◌then◌else◌, Bytes,
  codes, bytes_eq, ℕ, ◌||◌,
}

-- The element that a byte belongs to is the first one.
abbrev pub extend : ℕ → List Bytes → List Bytes
extend c [] = (c ∷ []) ∷ []
extend c (p ∷ ps) = (c ∷ p) ∷ ps

-- `strings.Split(s, string(sep))`
unfoldable pub split : ℕ → Bytes → List Bytes
split sep [] = [] ∷ []
split sep (c ∷ s) = let rest = split sep s in if c == sep then [] ∷ rest else extend c rest

-- `strings.Join(parts, string(sep))`
unfoldable pub join : ℕ → List Bytes → Bytes
join sep [] = []
join sep (p ∷ []) = p
join sep (p ∷ q ∷ ps) = p ++ sep ∷ join sep (q ∷ ps)

-- What `..` does to the elements so far, the last one first.
abbrev pub pop : Bool → List Bytes → List Bytes
pop true [] = []
pop false [] = codes ".." ∷ []
pop rooted (top ∷ rest) =
    if not rooted && bytes_eq top (codes "..") then codes ".." ∷ top ∷ rest else rest

abbrev pub resolve : Bool → List Bytes → Bytes → List Bytes
resolve rooted stack part =
    if bytes_eq part [] || bytes_eq part (codes ".")
    then stack
    else if bytes_eq part (codes "..")
    then pop rooted stack
    else part ∷ stack

unfoldable pub resolve_all : Bool → List Bytes → List Bytes → List Bytes
resolve_all rooted stack [] = reverse stack
resolve_all rooted stack (part ∷ parts) = resolve_all rooted (resolve rooted stack part) parts

abbrev pub or_dot : Bytes → Bytes
or_dot [] = codes "."
or_dot (c ∷ s) = c ∷ s

-- `path.Clean`
unfoldable pub clean : Bytes → Bytes
unfolding split join resolve_all
clean [] = codes "."
clean (c ∷ s) =
    if c == b'/'
    then b'/' ∷ join b'/' (resolve_all true [] (split b'/' s))
    else or_dot (join b'/' (resolve_all false [] (split b'/' (c ∷ s))))

-- The buffer of `path.Join`: empty elements at the front are left out.
unfoldable pub join_buffer : Bytes → List Bytes → Bytes
join_buffer buf [] = buf
join_buffer [] (e ∷ es) = join_buffer e es
join_buffer (c ∷ buf) (e ∷ es) = join_buffer ((c ∷ buf) ++ b'/' ∷ e) es

abbrev pub clean_joined : Bytes → Bytes
clean_joined [] = []
clean_joined (c ∷ buf) = clean (c ∷ buf)

-- `path.Join`
unfoldable pub path_join : List Bytes → Bytes
unfolding join_buffer clean
path_join es = clean_joined (join_buffer [] es)

-- `filepath.Ext`: from the last dot behind the last slash, or nothing. The second argument is the
-- extension found so far.
unfoldable pub ext_from : Bytes → Bytes → Bytes
ext_from [] found = found
ext_from (c ∷ s) found = ext_from s (if c == b'/' then [] else if c == b'.' then c ∷ s else found)

unfoldable pub ext : Bytes → Bytes
unfolding ext_from
ext path = ext_from path []

clean_test : clean (codes "/a/./b//../../../c/") ≡ codes "/c"
unfolding clean bytes_eq
clean_test = refl

clean_relative_test : clean (codes "a/../../b") ≡ codes "../b"
unfolding clean bytes_eq
clean_relative_test = refl

path_join_test : path_join ([] ∷ codes "raw" ∷ [] ∷ codes "x" ∷ []) ≡ codes "raw/x"
unfolding path_join bytes_eq
path_join_test = refl

ext_test : ext (codes "a.b/c.tar.GZ") ≡ codes ".GZ"
unfolding ext
ext_test = refl
