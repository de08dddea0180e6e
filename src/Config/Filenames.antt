-- ===== src/Config/Filenames.antt =====
-- src/config.rs: `SpaceHandlingConfig`, what becomes of the spaces in a filename.
use rustypaste.Prelude.{Text, codes, replace}

pub data SpaceHandlingConfig : Type 0 where
  encode replace_spaces : SpaceHandlingConfig

unfoldable pub process_filename : SpaceHandlingConfig → Text → Text
process_filename encode name = replace b' ' (codes "%20") name
process_filename replace_spaces name = replace b' ' (codes "_") name
