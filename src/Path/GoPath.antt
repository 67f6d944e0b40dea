-- ===== src/Path/GoPath.antt =====
-- What internal/host/path.go uses of Go's standard package `path`, which knows "/" alone.
-- (`path/filepath` is the same functions on a Unix host.)
use noderati.Prelude.{Bool, true, false, List, [], ◌∷◌, if◌then◌else◌}
use noderati.Prelude.Strings.{Bytes, is_empty, has_prefix, split_non_empty, drop_empty, join, codes}
use noderati.Path.Segments.{dot, clean_segments}

-- `path.IsAbs`
unfoldable pub is_abs : Bytes → Bool
unfolding has_prefix
is_abs p = has_prefix (codes "/") p

-- How `path.Clean` writes the segments that are left.
unfoldable pub spell : Bool → List Bytes → Bytes
unfolding join
spell true segs = b'/' ∷ join b'/' segs
spell false [] = dot
spell false (w ∷ ws) = join b'/' (w ∷ ws)

-- `path.Clean`
unfoldable pub clean : Bytes → Bytes
unfolding is_abs spell clean_segments split_non_empty
clean p =
    if is_empty p
    then dot
    else spell (is_abs p) (clean_segments (is_abs p) (split_non_empty p b'/'))

-- `path.Join`: the elements that are not empty, joined and cleaned
unfoldable pub join_elems : List Bytes → Bytes
unfolding clean drop_empty join
join_elems elems = spelled (drop_empty elems)
  where
    spelled : List Bytes → Bytes
    spelled [] = []
    spelled (w ∷ ws) = clean (join b'/' (w ∷ ws))
