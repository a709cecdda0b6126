-- ===== src/App.antt =====
-- src/app.cpp and include/adbcpp/app.hpp: packages, by commands of the device's shell.
pub mod Quoting
pub mod Reason
use adbcpp.Base.{
  ℕ, suc, ◌+◌, ◌-◌, List, [], ◌∷◌, ◌++◌, Bool, true, false, not, ◌&&◌, ◌==◌, if◌then◌else◌, Option,
  none, some, length, take, drop, codes, find, find_from, is_empty,
}
use adbcpp.Outcome.{Result, Status, ok, err, stuck, error, invalid_argument}
use adbcpp.Outcome.Exec.{Exec, pure, ◌>>=◌, ◌>>◌, continue}
use adbcpp.Connection.{Connection, Build}
use adbcpp.Sync.Codec.{SyncCompression, Codecs}
use adbcpp.Sync.Push.{LocalFile, push}
use adbcpp.Shell.{CommandResult, auto, run}

-- The loop over the characters.
abbrev pub quote_characters : List ℕ → List ℕ
quote_characters [] = []
quote_characters (character ∷ rest) =
    (if character == b'\'' then codes "'\\''" else character ∷ []) ++ quote_characters rest

unfoldable pub shell_quote : List ℕ → List ℕ
shell_quote text = b'\'' ∷ (quote_characters text ++ b'\'' ∷ [])

abbrev pub is_found : Option ℕ → Bool
is_found none = false
is_found (some i) = true

unfoldable pub package_result : CommandResult → CommandResult
package_result r = record r {
  success = r.exit_code == 0 && is_found (find (codes "Success") r.output);
}

unfoldable pub failure_reason : CommandResult → List ℕ
failure_reason r = elim (find (codes "Failure [") r.output) [
  | none ↦ []
  | some start ↦
      let reason_start = start + 9 in
      elim (find_from (codes "]") r.output reason_start) [
        | none ↦ drop reason_start r.output
        | some stop ↦ take (stop - reason_start) (drop reason_start r.output)
      ]
]

-- The result is dropped, and the connection is as the command left it.
unfoldable pub remove_quietly : List ℕ → Connection → Connection
remove_quietly path c = (run (codes "rm -f " ++ shell_quote path) auto c).1

-- The APK is removed from the device whether it was pushed or not, and before the result of the
-- installation is looked at.
abbrev pub after_run :
    List ℕ → Result CommandResult × Connection → Result CommandResult × Connection
after_run remote (ok result, c) = (ok (package_result result), remove_quietly remote c)
after_run remote (err e, c) = (err e, remove_quietly remote c)
after_run remote (stuck, c) = (stuck, c)

abbrev pub after_push : List ℕ → List ℕ → Status × Connection → Result CommandResult × Connection
after_push remote command (ok _, c) = after_run remote (run command auto c)
after_push remote command (err e, c) = (err e, remove_quietly remote c)
after_push remote command (stuck, c) = (stuck, c)

abbrev pub remote_apk : LocalFile → List ℕ
remote_apk apk = codes "/data/local/tmp/" ++ apk.filename

unfoldable pub install_command : LocalFile → List ℕ → List ℕ
install_command apk options =
    codes "pm install"
    ++ ((if is_empty options then [] else b' ' ∷ options) ++ b' ' ∷ shell_quote (remote_apk apk))

unfoldable pub install : Build → Codecs → LocalFile → List ℕ → Exec Connection CommandResult
install b libraries apk options c =
    if not apk.is_regular_file
    then (err (error invalid_argument "the APK is not a regular file"), c)
    else after_push (remote_apk apk) (install_command apk options)
        (push b libraries apk (remote_apk apk) SyncCompression.auto c)

unfoldable pub uninstall : List ℕ → Bool → Exec Connection CommandResult
uninstall name keep_data = do
  result ←
      run
        (codes "pm uninstall"
          ++ ((if keep_data then codes " -k" else []) ++ (codes " " ++ shell_quote name)))
        auto
  pure (package_result result)

unfoldable pub launch : List ℕ → Exec Connection CommandResult
launch name =
    run (codes "monkey -p " ++ (shell_quote name ++ codes " -c android.intent.category.LAUNCHER 1"))
      auto

unfoldable pub close : List ℕ → Exec Connection Unit
close name = do result ← run (codes "am force-stop " ++ shell_quote name) auto; pure tt

unfoldable pub is_running : List ℕ → Exec Connection Bool
is_running name = do result ← run (codes "pidof " ++ shell_quote name) auto; pure result.success
