-- ===== src/Utils/FileTypes.antt =====
-- `FileTypes` of fruitsalade/webapp/js/utils.js. The browser's `toLowerCase` is an argument.
use Prim.Native.Char.{code}
use fruit_salade.Base.{
  String, Bool, false, ◌||◌, List, [], ◌∷◌, ◌==◌, if◌then◌else◌, is_empty, same_text, listed,
}

abbrev pub text_exts : List String
text_exts =
    ".txt" ∷ ".md" ∷ ".json" ∷ ".js" ∷ ".css" ∷ ".html" ∷ ".py" ∷ ".go" ∷ ".sh" ∷ ".yml" ∷ ".yaml"
    ∷ ".xml" ∷ ".csv" ∷ ".log" ∷ ".ini" ∷ ".conf" ∷ ".toml" ∷ ".env" ∷ ".sql" ∷ ".rs" ∷ ".ts"
    ∷ ".tsx" ∷ ".jsx" ∷ ".c" ∷ ".cpp" ∷ ".h" ∷ ".java" ∷ ".rb" ∷ ".php" ∷ ".lua" ∷ ".makefile"
    ∷ ".dockerfile" ∷ ".gitignore" ∷ ".mod" ∷ ".sum" ∷ ".cfg" ∷ ".properties" ∷ ".bat" ∷ ".ps1"
    ∷ ".r" ∷ ".swift" ∷ ".kt" ∷ ".scala" ∷ []

abbrev pub image_exts : List String
image_exts = ".png" ∷ ".jpg" ∷ ".jpeg" ∷ ".gif" ∷ ".svg" ∷ ".webp" ∷ ".bmp" ∷ ".ico" ∷ []

abbrev pub code_exts : List String
code_exts =
    ".js" ∷ ".ts" ∷ ".tsx" ∷ ".jsx" ∷ ".py" ∷ ".go" ∷ ".rs" ∷ ".c" ∷ ".cpp" ∷ ".h" ∷ ".java" ∷ ".rb"
    ∷ ".php" ∷ ".lua" ∷ ".sh" ∷ ".bat" ∷ ".ps1" ∷ ".r" ∷ ".swift" ∷ ".kt" ∷ ".scala" ∷ ".sql"
    ∷ ".css" ∷ ".html" ∷ ".xml" ∷ []

abbrev pub archive_exts : List String
archive_exts = ".zip" ∷ ".tar" ∷ ".gz" ∷ ".bz2" ∷ ".xz" ∷ ".7z" ∷ ".rar" ∷ ".tar.gz" ∷ ".tgz" ∷ []

abbrev pub video_exts : List String
video_exts = ".mp4" ∷ ".mkv" ∷ ".avi" ∷ ".mov" ∷ ".webm" ∷ ".flv" ∷ ".wmv" ∷ []

abbrev pub audio_exts : List String
audio_exts = ".mp3" ∷ ".wav" ∷ ".ogg" ∷ ".flac" ∷ ".aac" ∷ ".m4a" ∷ ".wma" ∷ []

abbrev pub spreadsheet_exts : List String
spreadsheet_exts = ".csv" ∷ ".xls" ∷ ".xlsx" ∷ ".ods" ∷ []

abbrev pub doc_exts : List String
doc_exts = ".pdf" ∷ ".doc" ∷ ".docx" ∷ ".odt" ∷ []

abbrev pub note_exts : List String
note_exts = ".md" ∷ ".txt" ∷ ".log" ∷ []

abbrev pub config_exts : List String
config_exts = ".yml" ∷ ".yaml" ∷ ".toml" ∷ ".ini" ∷ ".conf" ∷ ".env" ∷ []

abbrev pub gallery_image_exts : List String
gallery_image_exts =
    ".jpg" ∷ ".jpeg" ∷ ".png" ∷ ".gif" ∷ ".webp" ∷ ".bmp" ∷ ".tiff" ∷ ".tif" ∷ ".heic" ∷ ".heif"
    ∷ ".avif" ∷ ".cr2" ∷ ".cr3" ∷ ".nef" ∷ ".arw" ∷ ".dng" ∷ ".orf" ∷ ".rw2" ∷ ".pef" ∷ ".srw"
    ∷ ".raf" ∷ []

unfoldable pub has_dot : String → Bool
has_dot String.[] = false
has_dot (String.◌∷◌ c s) = code c == b'.' || has_dot s

-- `filename.substring(filename.lastIndexOf('.'))`, or nothing without a dot.
unfoldable pub from_last_dot : String → String
from_last_dot String.[] = String.[]
from_last_dot (String.◌∷◌ c s) =
    let rest = from_last_dot s in
    if has_dot s then rest else if code c == b'.' then String.◌∷◌ c s else String.[]

abbrev pub starts_with_dot : String → Bool
starts_with_dot String.[] = false
starts_with_dot (String.◌∷◌ c s) = code c == b'.'

pub data Kind : Type 0 where
  text image pdf other : Kind

pub data Icon : Type 0 where
  folder_icon code_icon image_icon doc_icon archive_icon video_icon audio_icon : Icon
  spreadsheet_icon text_icon config_icon default_icon : Icon

module _ (lower : String → String) where
  unfoldable pub get_ext : String → String
  get_ext filename =
      if is_empty filename
      then ""
      else if has_dot filename
      then lower (from_last_dot filename)
      else ""

  unfoldable pub detect : String → Kind
  detect s =
      let ext = if starts_with_dot s then s else get_ext s in
      if listed ext text_exts || same_text ext ""
      then text
      else if listed ext image_exts
      then image
      else if same_text ext ".pdf"
      then pdf
      else other

  unfoldable pub is_text : String → Bool
  is_text filename = let ext = get_ext filename in listed ext text_exts || same_text ext ""

  unfoldable pub icon : String → Bool → Icon
  icon name is_dir =
      let ext = get_ext name in
      if is_dir
      then folder_icon
      else if listed ext code_exts
      then code_icon
      else if listed ext image_exts
      then image_icon
      else if listed ext doc_exts
      then doc_icon
      else if listed ext archive_exts
      then archive_icon
      else if listed ext video_exts
      then video_icon
      else if listed ext audio_exts
      then audio_icon
      else if listed ext spreadsheet_exts
      then spreadsheet_icon
      else if listed ext note_exts
      then text_icon
      else if listed ext config_exts
      then config_icon
      else default_icon

  unfoldable pub is_gallery_image : String → Bool
  is_gallery_image filename = listed (get_ext filename) gallery_image_exts
