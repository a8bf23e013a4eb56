-- ===== src/Geo/Confined.antt =====
-- internal/geo/geo.go: the files that `Ensure` writes.
use zfw_dark.Common.{
  ℕ, Bool, true, false, List, [], ◌∷◌, Option, none, some, ◌≡◌, ◌≢◌, refl, ◌∙◌, inl, inr,
  Bool-cases,
}
use zfw_dark.Common.Files.{FileSystem, FileLaws, tmp_path, replace_file-other}
use zfw_dark.Common.Text.{Text, Std, is_empty, trim_space, to_lower}
use zfw_dark.Geo.{Networks, is_valid_cc}
use zfw_dark.Geo.Ipset.{
  GeoError, zone_path, ipset_path, write_ipset, render_zone, render_ipset, store_body, fetch,
  is_fresh, render_cached, use_cache, ensure_country, unless_failed, ensure_all, ensure,
}

module _ (std : Std) (net : Networks) (fs : FileSystem) (dir : Text) where
  -- A path that is no country's zone or ipset file, nor the file that replaces one.
  pub record Foreign (q cc : Text) : Type 0 where
    pub not_zone : q ≢ zone_path std net fs dir cc
    pub not_new_zone : q ≢ tmp_path (zone_path std net fs dir cc)
    pub not_ipset : q ≢ ipset_path std net fs dir cc
    pub not_new_ipset : q ≢ tmp_path (ipset_path std net fs dir cc)

  module _ (laws : FileLaws fs) (q : Text) where
    Same : fs.State → fs.State → Type 0
    Same t s = fs.read_file q t ≡ fs.read_file q s

    write_ipset-other :
        (cc : Text) (adds : List Text) (s : fs.State)
        → Foreign q cc
        → Same (write_ipset std net fs dir cc adds s).0 s
    unfolding write_ipset Same
    write_ipset-other cc [] s h = refl
    write_ipset-other cc (a ∷ adds) s h =
        replace_file-other fs laws (ipset_path std net fs dir cc) q _ s h.not_ipset h.not_new_ipset

    render_zone-other :
        (cc : Text) (o : Option Text) (s : fs.State)
        → Foreign q cc
        → Same (render_zone std net fs dir cc o s).0 s
    unfolding render_zone Same
    render_zone-other cc none s h = refl
    render_zone-other cc (some b) s h = unfold Same in write_ipset-other cc _ s h

    render_ipset-other :
        (cc : Text) (s : fs.State) → Foreign q cc → Same (render_ipset std net fs dir cc s).0 s
    unfolding render_ipset
    render_ipset-other cc s h = render_zone-other cc _ s h

    module _ (age : Text → fs.State → Option ℕ) (download : Text → fs.State → Option Text) where
      store_body-other :
          (cc : Text) (o : Option Text) (s : fs.State)
          → Foreign q cc
          → Same (store_body std net fs dir age download cc o s).0 s
      unfolding Same
      store_body-other cc none s h = refl
      store_body-other cc (some []) s h = refl
      store_body-other cc (some (c ∷ b)) s h =
          replace_file-other fs laws (zone_path std net fs dir cc) q _ s h.not_zone h.not_new_zone

      render_cached-other :
          (cc : Text) (o : Option ℕ) (s : fs.State)
          → Foreign q cc
          → Same (render_cached std net fs dir age download cc o s).0 s
      render_cached-other cc none s h = unfold Same in refl
      render_cached-other cc (some old) s h = render_ipset-other cc s h

      use_cache-other :
          (cc : Text) (out : fs.State × Bool)
          → Foreign q cc
          → Same (use_cache std net fs dir age download cc out).0 out.0
      use_cache-other cc (s, true) h = render_ipset-other cc s h
      use_cache-other cc (s, false) h =
          render_cached-other cc (age (zone_path std net fs dir cc) s) s h

      ensure_country-other :
          (cc : Text) (s : fs.State)
          → Foreign q cc
          → Same (ensure_country std net fs dir age download cc s).0 s
      unfolding ensure_country fetch
      ensure_country-other cc s h =
          elim (Bool-cases
            (is_fresh std net fs dir age download (age (zone_path std net fs dir cc) s))) [
              | inl e ↦ rw e (render_ipset-other cc s h)
              | inr e ↦
                  let got = store_body-other cc (download cc s) s h in
                  let used =
                    use_cache-other cc (store_body std net fs dir age download cc (download cc s) s)
                      h in
                  rw e (unfold Same in used ∙ got)
            ]

      unless_failed-other :
          (out : fs.State × Option GeoError) (rest : fs.State → fs.State × Option GeoError)
          (s : fs.State)
          → Same out.0 s
          → ((t : fs.State) → Same (rest t).0 t)
          → Same (unless_failed std net fs dir age download out rest).0 s
      unless_failed-other (t, some e) rest s h k = h
      unless_failed-other (t, none) rest s h k = unfold Same in k t ∙ h

      ensure_all-other :
          (codes : List Text) (s : fs.State)
          → ((cc : Text) → is_valid_cc cc ≡ true → Foreign q cc)
          → Same (ensure_all std net fs dir age download codes s).0 s
      unfolding ensure_all
      ensure_all-other [] s h = unfold Same in refl
      ensure_all-other (raw ∷ codes) s h =
          let code = to_lower std (trim_space raw) in
          elim (Bool-cases (is_empty (to_lower std (trim_space raw)))) [
            | inl e ↦ rw e (ensure_all-other codes s h)
            | inr some_code ↦ elim (Bool-cases (is_valid_cc (to_lower std (trim_space raw)))) [
              | inl valid ↦
                  rw (some_code, valid)
                    (unless_failed-other (ensure_country std net fs dir age download code s)
                      (λ t. ensure_all std net fs dir age download codes t) s
                      (ensure_country-other code s (h code valid))
                      (λ t. ensure_all-other codes t h))
              | inr invalid ↦ rw (some_code, invalid) (unfold Same in refl)
            ]
          ]

      -- Whatever codes it is given and whatever is downloaded, Ensure leaves every file as it was but
      -- the zone and ipset files of valid country codes, and the files that replace them.
      pub ensure-other :
          (made : Bool) (codes : List Text) (s : fs.State)
          → ((cc : Text) → is_valid_cc cc ≡ true → Foreign q cc)
          → fs.read_file q (ensure std net fs dir age download made codes s).0 ≡ fs.read_file q s
      unfolding ensure
      ensure-other true codes s h = unfold Same in ensure_all-other codes s h
      ensure-other false codes s h = refl
