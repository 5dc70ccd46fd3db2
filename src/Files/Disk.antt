-- ===== src/Files/Disk.antt =====
-- The part of the file system under the data directory that internal/files/service.go works on:
-- regular files by path, where a path is the list of its elements below the data directory.
pub mod Reads
use llm_file_gateway.Prelude.{
  ℕ, Bool, true, false, not, ◌&&◌, Option, none, some, List, [], ◌∷◌, select, if◌then◌else◌,
}
use llm_file_gateway.Prelude.Text.{◌=ˢ◌}
use llm_file_gateway.Store.{FilePath}

abbrev pub Bytes : Type 0
Bytes = List ℕ

abbrev pub Disk : Type 0
Disk = List (FilePath × Bytes)

abbrev pub same_path : FilePath → FilePath → Bool
same_path [] [] = true
same_path [] (element ∷ path) = false
same_path (element ∷ path) [] = false
same_path (element ∷ path) (other ∷ rest) = element =ˢ other && same_path path rest

-- The second path lies at or below the first.
abbrev pub is_below : FilePath → FilePath → Bool
is_below [] path = true
is_below (element ∷ dir) [] = false
is_below (element ∷ dir) (other ∷ path) = element =ˢ other && is_below dir path

-- filepath.Dir, of a path with a last element.
abbrev pub parent : FilePath → FilePath
parent [] = []
parent (element ∷ []) = []
parent (element ∷ other ∷ path) = element ∷ parent (other ∷ path)

-- os.RemoveAll
abbrev pub remove_all : FilePath → Disk → Disk
remove_all dir = select λ entry. not (is_below dir entry.0)

-- os.ReadFile
abbrev pub read_file : FilePath → Disk → Option Bytes
read_file path [] = none
read_file path ((other, content) ∷ disk) =
    if same_path path other then some content else read_file path disk

-- os.WriteFile
abbrev pub write_file : FilePath → Bytes → Disk → Disk
write_file path content disk = (path, content) ∷ select (λ entry. not (same_path path entry.0)) disk
