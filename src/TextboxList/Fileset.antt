-- ===== src/TextboxList/Fileset.antt =====
-- The functions of fileset-webview.html that the application calls.
pub mod Reports
use colt_core.Base.{true, false, Text}
use colt_core.TextboxList.Host.{Host, Value}
use colt_core.TextboxList.Codec.{plain_value}
use colt_core.TextboxList.Widget.{Options, Widget, get_text}
use colt_core.TextboxList.Bits.{add, set_new_values}

module _ (host : Host) (opts : Options) where
  -- `addFile(str)`
  unfoldable pub add_file : Text → Widget → Widget
  add_file str w = record (add host opts (plain_value str) (record w { input_from_user = false })) {
    input_from_user = true;
  }

  -- `setFiles(str)`
  unfoldable pub set_files : Text → Widget → Widget
  set_files str w = record (set_new_values host opts str (record w { input_from_user = false })) {
    input_from_user = true;
  }

-- `getFiles()`
unfoldable pub get_files : Host → Widget → Text × Widget
get_files host w = get_text host w
