-- ===== src/Watchdog.antt =====
-- internal/watchdog/watchdog.go: `EnsureInstalled`. The files and systemctl are parameters.
use zfw_dark.Common.{Bool, true, false, List, [], ◌∷◌, Option, none, some, ◌≡◌, refl, if◌then◌else◌}
use zfw_dark.Common.Files.{FileSystem}
use zfw_dark.Common.Text.{Text, lit, ◌==◌}

-- A unit's path and content.
abbrev pub UnitFile : Type 0
UnitFile = Text × Text

abbrev pub svc_unit : UnitFile
svc_unit = (
  lit "/etc/systemd/system/zfw-ui-watchdog.service",
  lit
      "[Unit]\nDescription=Start zfw-ui if the sysext unit was missed at boot\n[Service]\nType=oneshot\nExecStart=/bin/sh -c 'systemctl is-active --quiet zfw-ui.service || systemctl start zfw-ui.service'\n",
)

abbrev pub timer_unit : UnitFile
timer_unit = (
  lit "/etc/systemd/system/zfw-ui-watchdog.timer",
  lit
      "[Unit]\nDescription=Ensure zfw-ui is running after the sysext overlay is merged\n[Timer]\nOnBootSec=20\n[Install]\nWantedBy=timers.target\n",
)

-- How the loop ended.
pub data Installed : Type 0 where
  unwritten : Installed
  done : Bool → Installed

unfoldable pub is_current : Text → Option Text → Bool
is_current content none = false
is_current content (some b) = b == content

module _ (fs : FileSystem) where
  -- The loop, in the order in which the `range` visits the units.
  unfoldable pub install : Bool → List UnitFile → fs.State → fs.State × Installed
  unfolding is_current
  install changed [] s = (s, done changed)
  install changed ((path, content) ∷ units) s =
      let kept = install changed units s in
      let written = install true units (fs.write_file path content s).0 in
      if is_current content (fs.read_file path s)
      then kept
      else if (fs.write_file path content s).1
      then written
      else ((fs.write_file path content s).0, unwritten)

  -- The files are as the units say.
  abbrev Current : List UnitFile → fs.State → Type 0
  Current [] s = Unit
  Current ((path, content) ∷ units) s =
      (is_current content (fs.read_file path s) ≡ true) × Current units s

  -- A later start of the daemon writes nothing and needs no reload.
  install-Current :
      (changed : Bool) (units : List UnitFile) (s : fs.State)
      → Current units s
      → install changed units s ≡ (s, done changed)
  unfolding install
  install-Current changed [] s h = refl
  install-Current changed ((path, content) ∷ units) s (here, h) =
      rw here (install-Current changed units s h)

  -- `EnsureInstalled`: `systemctl` says whether a call of it succeeds.
  module _ (systemctl : List Text → fs.State → fs.State × Bool) where
    unfoldable pub enable : fs.State × Installed → fs.State × Bool
    enable (s, unwritten) = (s, false)
    enable (s, done changed) =
        let reloaded = systemctl (lit "daemon-reload" ∷ []) s in
        systemctl (lit "enable" ∷ lit "--now" ∷ lit "zfw-ui-watchdog.timer" ∷ [])
          (if changed then reloaded.0 else s)

    unfoldable pub ensure_installed : List UnitFile → fs.State → fs.State × Bool
    unfolding enable
    ensure_installed units s = enable (install false units s)
