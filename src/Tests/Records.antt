-- ===== src/Tests/Records.antt =====
-- server/services/file_cache_map.go and the handler of `done` on a torrent with one file on record.
use torrent_web_seeder.Prelude.{
  ap, ◌∙◌, ◌+◌, subst, inl, inr, Bool-cases, text_eq_iff, ◌-◌, ◌<◌, ◌≡◌, ◌↔◌, refl, true, false,
  some, [], ◌∷◌, ◌++◌, arith, Text, codes, length, take, has_prefix, text_eq, text_Eq, lookup,
  insert, delete, elem, Unique, ok, join,
}
use torrent_web_seeder.Files.{full_path}
use torrent_web_seeder.FileCache.{get_path, get_cached_path}
use torrent_web_seeder.FileCache.Recorded.{IsCached, get_cached_path_exact}
use torrent_web_seeder.FileCache.Counted.{
  below, OnRecord, LikesPrefixes, CaseApart, is_literal, lower_case,
}
use torrent_web_seeder.FileCount.{get_info, get_cached_info}
use torrent_web_seeder.WebSeeder.Available.{serve_done}
use torrent_web_seeder.WebSeeder.Available.OnRecord.{with_caches, paths, done_on_record}
use torrent_web_seeder.Tests.Web.{hash, info, kept, disk, stores, bare}

program : Unit {0}
unfolding lookup insert delete text_eq elem has_prefix full_path join
program = tt

get_cached_path_exact_example :
    (get_cached_path disk hash (codes "N/d/b") ≡ ok (codes "/data/0123456789/content/ab/abN/d/b"))
    ↔ IsCached disk hash (codes "N/d/b") (codes "/data/0123456789/content/ab/abN/d/b")
get_cached_path_exact_example =
    get_cached_path_exact disk hash (codes "N/d/b") b'/'
      (codes "data/0123456789/content/ab/abN/d/b") refl

cached_b : get_path disk hash (codes "N/d/b") ≡ ok (codes "/data/0123456789/content/ab/abN/d/b")
unfolding program get_path
cached_b = refl

on_record : OnRecord disk hash kept
unfolding OnRecord
on_record = (codes "/data/0123456789", kept, refl, refl, refl, refl)

own_path : (x : Text) → elem x kept ≡ true → elem x (paths info) ≡ true
unfolding program paths
own_path x i = ground arith

longer : (q : Text) → length (q ++ codes "%") ≡ length q + 1
longer [] = refl
longer (c ∷ q) = omega (arith, longer q)

take_whole : (q : Text) → take (length q) (q ++ codes "%") ≡ q
take_whole [] = refl
take_whole (c ∷ q) = ap (λ x. c ∷ x) (take_whole q)

take_front : (p : Text) → take (length (p ++ codes "%") - 1) (p ++ codes "%") ≡ p
take_front p =
    let shorter : length (p ++ codes "%") - 1 ≡ length p = omega (arith, longer p) in
    ap (λ n. take n (p ++ codes "%")) shorter ∙ take_whole p

likes : LikesPrefixes disk
likes x p l = ap (λ q. has_prefix (lower_case x) (lower_case q)) (take_front p)

SameCase : Text → Type 0
SameCase x =
    has_prefix (lower_case x) (lower_case (codes "N/d" ++ codes "/"))
    ≡ has_prefix x (codes "N/d" ++ codes "/")

case_apart : CaseApart (codes "N/d") (paths info)
unfolding program paths SameCase
case_apart x i = elim (Bool-cases (text_eq (codes "N/a") x)) [
  | inl e ↦ subst SameCase ((text_eq_iff (codes "N/a") x).0 e) refl
  | inr n ↦ elim (Bool-cases (text_eq (codes "N/d/b") x)) [
    | inl e ↦ subst SameCase ((text_eq_iff (codes "N/d/b") x).0 e) refl
    | inr m ↦ ground arith
  ]
]

apart : Unique (paths info)
unfolding program paths
apart = (refl, (refl, tt))

kept-Unique : Unique kept
unfolding program
kept-Unique = (refl, tt)

info_found : get_cached_info stores hash ≡ ok (some info)
unfolding get_info get_cached_info
info_found = refl

unrecorded : elem (codes "N/d") kept ≡ false
unfolding program
unrecorded = refl

literal : is_literal (codes "N/d" ++ codes "/") ≡ true
unfolding is_literal
literal = refl

done_on_record_example : (serve_done (with_caches bare disk stores) hash (codes "N/d") ≡ []) ↔ (
    (0 < length (below (codes "N/d") (paths info)))
    × ((x : Text) → elem x (below (codes "N/d") (paths info)) ≡ true → elem x kept ≡ true))
done_on_record_example =
    done_on_record bare disk stores hash (codes "N/d") info kept refl info_found (omega arith)
      on_record kept-Unique apart own_path likes literal case_apart refl unrecorded
