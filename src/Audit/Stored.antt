-- ===== src/Audit/Stored.antt =====
-- `LoadHistory` and `SaveHistory` of internal/audit/history.go. The files and the JSON encoding are
-- parameters.
use zfw_dark.Common.{Bool, true, false, [], Option, none, some}
use zfw_dark.Common.Files.{FileSystem, Replaced, whole, write_error, rename_error, replace_file}
use zfw_dark.Common.Result.{Result, ok, err}
use zfw_dark.Common.Text.{Text}
use zfw_dark.Audit.{History}

-- `json.MarshalIndent` and `json.Unmarshal` on histories; `none` is an error. A null decodes to the
-- empty map.
pub record HistoryJson : Type 0 where
  pub encode : History → Option Text
  pub decode : Text → Option History

pub data HistoryError : Type 0 where
  history_unread bad_history unencoded history_unwritten history_unmoved : HistoryError

abbrev pub no_history : History
no_history i = []

unfoldable pub history_found : Option History → Result HistoryError History
history_found none = err bad_history
history_found (some h) = ok h

unfoldable pub history_result : Replaced → Result HistoryError (Unit {0})
history_result whole = ok tt
history_result write_error = err history_unwritten
history_result rename_error = err history_unmoved

module _ (fs : FileSystem) (json : HistoryJson) where
  -- `missing` is what `os.IsNotExist` says of a read that failed.
  unfoldable pub history_read : Bool → Option Text → Result HistoryError History
  unfolding history_found
  history_read missing (some b) = history_found (json.decode b)
  history_read true none = ok no_history
  history_read false none = err history_unread

  -- `LoadHistory`.
  unfoldable pub load_history : Bool → Text → fs.State → Result HistoryError History
  unfolding history_read
  load_history missing path s = history_read missing (fs.read_file path s)

  unfoldable pub write_history :
      Text → Option Text → fs.State → fs.State × Result HistoryError (Unit {0})
  unfolding history_result
  write_history path none s = (s, err unencoded)
  write_history path (some b) s = let (t, how) = replace_file fs path b s in (t, history_result how)

  -- `SaveHistory`.
  unfoldable pub save_history :
      Text → History → fs.State → fs.State × Result HistoryError (Unit {0})
  unfolding write_history
  save_history path h s = write_history path (json.encode h) s
