-- ===== src/Web/Tests.antt =====
-- A request with a query.
use rtkbase.Prelude.{◌<◌, ◌≡◌, refl, ◌++◌, none, some, length}
use rtkbase.CText.{codes}
use rtkbase.Web.{strchr, shorten, path_length, get_path_from_uri, sanitize_filename_part}
use rtkbase.Web.Path.{IsPathOf, get_path_from_uri-IsPathOf}

found_path :
    get_path_from_uri (codes "/www") (codes "/log.html?n=1") 64
    ≡ some (codes "/www/log.html", codes "/log.html")
unfolding get_path_from_uri path_length strchr shorten
found_path = refl

fragment_first :
    get_path_from_uri (codes "/www") (codes "/log.html#top?n=1") 64
    ≡ some (codes "/www/log.html", codes "/log.html")
unfolding get_path_from_uri path_length strchr shorten
fragment_first = refl

get_path_from_uri-IsPathOf_example :
    (codes "/www/log.html" ≡ codes "/www" ++ codes "/log.html")
    × (length (codes "/www/log.html") < 64)
    × IsPathOf (codes "/log.html?n=1") (codes "/log.html")
get_path_from_uri-IsPathOf_example =
    get_path_from_uri-IsPathOf (codes "/www") (codes "/log.html?n=1") 64 (codes "/www/log.html")
      (codes "/log.html") found_path

colons_are_replaced : sanitize_filename_part (codes "12:30") none ≡ codes "12_30"
unfolding sanitize_filename_part
colons_are_replaced = refl

nothing_left : sanitize_filename_part (codes "..") (some (codes "rtkbase")) ≡ codes "rtkbase"
unfolding sanitize_filename_part
nothing_left = refl
