-- ===== src/Server/Answer.antt =====
-- src/server.rs, `upload`: the text that it answers.
use rustypaste.Prelude.{Option, none, some, List, [], ◌∷◌, ◌++◌, Text, codes}
use rustypaste.Config.Filenames.{SpaceHandlingConfig, process_filename}
use rustypaste.Server.Upload.{Uploaded, existing, stored}

-- the line of a field in the answer
unfoldable pub answer_line : (server_url : Text) → Option SpaceHandlingConfig → Uploaded → Text
answer_line server_url handle_spaces (existing public_filename) =
    server_url ++ b'/' ∷ public_filename ++ b'\n' ∷ []
answer_line server_url handle_spaces (stored result) =
    let name : Text = elim handle_spaces [
      | none ↦ result.filename
      | some spaces ↦ process_filename spaces result.filename
    ] in
    elim result.password [
      | none ↦ server_url ++ b'/' ∷ name ++ b'\n' ∷ []
      | some pwd ↦ server_url ++ b'/' ∷ name ++ b'\n' ∷ codes "Password: " ++ pwd ++ b'\n' ∷ []
    ]

unfoldable pub answer_body : (server_url : Text) → Option SpaceHandlingConfig → List Uploaded → Text
answer_body server_url handle_spaces [] = []
answer_body server_url handle_spaces (one ∷ more) =
    answer_line server_url handle_spaces one ++ answer_body server_url handle_spaces more
