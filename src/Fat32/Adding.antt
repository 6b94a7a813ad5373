-- ===== src/Fat32/Adding.antt =====
-- `fat32_add_file`: a new file with its data and its entry, or a refusal that leaves the table as it was.
use text_os.Common.{ℕ, List}
use text_os.Memory.{Memory}
use text_os.Drive.{Drive, IsReliable}
use text_os.Fat32.{Volume}
use text_os.Fat32.Geometry.{Laid}
use text_os.Fat32.Directory.{to_83_format}
use text_os.Fat32.Listed.{IsNew}
use text_os.Fat32.Filing.{HasDirectory}

module _ {D : Drive} (R : IsReliable D) where
  module _ (fuel : ℕ) (v : Volume D) (name : List ℕ) (bytes : Memory) (size : ℕ) (l : Laid R v)
      (dir : HasDirectory R v) (new : IsNew R v (to_83_format name (λ i. 0))) where
    abbrev target : Memory
    target = to_83_format name (λ i. 0)
