-- ===== src/Geo/Index.antt =====
-- internal/geo/geo.go: the index of the ranges and its cache.
use zfw_dark.Common.{
  List, [], ◌∷◌, ◌++◌, Option, none, some, ◌≡◌, refl, sym, ap, ◌∙◌, inl, inr, Bool-cases, All,
}
use zfw_dark.Common.Text.{Text, lit, ◌==◌, ==_iff}
use zfw_dark.Geo.{
  Networks, FileEntry, Directory, is_zone, zone_fingerprint, IndexEntry, index_file, trim_suffix,
  build_entries, build_index, Manager, no_index, ensure_index, find_country, lookup,
}
use zfw_dark.Geo.Fingerprint.{
  Stamp, stamped, stamps, stamps_of, Told, AllTold, DirectoryTold, zone_fingerprint-stamps,
}

module _ (net : Networks) where
  -- The manager after lookups on the directory as it was each time.
  abbrev pub after : List Directory → Manager net
  after [] = no_index net
  after (d ∷ ds) = ensure_index net (after ds) d d

  -- The index of the files with these stamps.
  index_of : (Stamp → Option Text) → List Stamp → List (IndexEntry net)
  index_of content [] = []
  index_of content (t ∷ ts) =
      index_file net (trim_suffix t.name (lit ".zone")) (content t) ++ index_of content ts

  module _ (content : Stamp → Option Text) where
    Told-entries :
        (f : FileEntry) (ts : List Stamp)
        → Told content f
        → index_file net (trim_suffix f.name (lit ".zone")) f.content ++ index_of content ts
          ≡ index_of content (stamped f f.info ts)
    unfolding index_of stamped
    Told-entries f ts told = rw (told.there, told.holds) refl

    build_entries-stamps :
        (fs : List FileEntry)
        → AllTold content fs
        → build_entries net fs ≡ index_of content (stamps fs)
    unfolding build_entries stamps index_of
    build_entries-stamps [] h = refl
    build_entries-stamps (f ∷ fs) (told, h) = elim (Bool-cases (is_zone f)) [
      | inl e ↦ rw e (
          ap (λ es. index_file net (trim_suffix f.name (lit ".zone")) f.content ++ es)
            (build_entries-stamps fs h)
          ∙ Told-entries f (stamps fs) (told e))
      | inr e ↦ rw e (build_entries-stamps fs h)
    ]

    build_index-stamps :
        (d : Directory)
        → DirectoryTold content d
        → build_index net d ≡ index_of content (stamps_of d)
    unfolding build_index index_of
    build_index-stamps none h = refl
    build_index-stamps (some fs) h = build_entries-stamps fs h

    same_index :
        (d e : Directory)
        → DirectoryTold content d
        → DirectoryTold content e
        → zone_fingerprint d ≡ zone_fingerprint e
        → build_index net d ≡ build_index net e
    same_index d e p q h =
        build_index-stamps d p
        ∙ ap (index_of content) (zone_fingerprint-stamps content d e p q h)
        ∙ sym (build_index-stamps e q)

    -- The cached entries are the index of every directory with the cached fingerprint.
    Cached : Manager net → Type 0
    Cached m =
        (d : Directory)
        → DirectoryTold content d
        → zone_fingerprint d ≡ m.fingerprint
        → build_index net d ≡ m.entries

    Cached-ensure_index :
        (m : Manager net) (d : Directory)
        → Cached m
        → DirectoryTold content d
        → Cached (ensure_index net m d d) × ((ensure_index net m d d).entries ≡ build_index net d)
    unfolding Cached ensure_index
    Cached-ensure_index m d cached here = elim (Bool-cases (zone_fingerprint d == m.fingerprint)) [
      | inl e ↦ rw e (cached, sym (cached d here ((==_iff _ _).0 e)))
      | inr e ↦ rw e ((λ f there same. same_index f d there here same), refl)
    ]

    no_index-Cached : Cached (no_index net)
    unfolding Cached
    no_index-Cached d here empty =
        same_index d none here tt (empty ∙ unfold zone_fingerprint in refl)
        ∙ unfold build_index in refl

    after-Cached : (ds : List Directory) → All (DirectoryTold content) ds → Cached (after ds)
    after-Cached [] h = no_index-Cached
    after-Cached (d ∷ ds) (here, h) = (Cached-ensure_index (after ds) d (after-Cached ds h) here).0

    -- Whatever the directory was at the lookups before, and however it has changed since, Lookup answers
    -- as if it read the zone files of its directory anew. This takes of the file system that `Info` tells
    -- the size and the time of every zone file, that what a zone file holds is told by its name, size and
    -- time, and that its name has neither a colon nor a bar; and that the directory does not change
    -- within a lookup.
    pub lookup-fresh :
        (ds : List Directory) (d : Directory) (ip : net.Ip)
        → All (DirectoryTold content) ds
        → DirectoryTold content d
        → (lookup net (after ds) d d ip).1 ≡ find_country net (build_index net d) ip
    unfolding lookup
    lookup-fresh ds d ip h here =
        ap (λ es. find_country net es ip)
          (Cached-ensure_index (after ds) d (after-Cached ds h) here).1
