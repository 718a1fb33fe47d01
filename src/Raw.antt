-- ===== src/Raw.antt =====
-- pkg/storage/rawstorage.go: the interface `RawStorage` over a world that its methods change, with
-- its two implementations in the modules below.
pub mod Content
pub mod Generic
pub mod Mapped
use libgitops.Prelude.{ℕ, Bool, Option, List}
use libgitops.Prelude.Text.{Str}
use libgitops.Prelude.Outcome.{Outcome, Done}
use libgitops.Key.{Gvk, ObjectKey}

-- A checksum is the number whose decimal text the code returns. A key that the storage hands out may
-- be a nil interface value.
pub record RawStorage (W : Type 0) : Type 0 where
  pub read : W → ObjectKey → Outcome Str
  pub exists : W → ObjectKey → Outcome Bool
  pub write : W → ObjectKey → Str → W × Done
  pub delete : W → ObjectKey → W × Done
  pub list : W → Gvk → Outcome (List ObjectKey)
  pub checksum : W → ObjectKey → Outcome ℕ
  pub content_type : W → ObjectKey → Str
  pub watch_dir : W → Str
  pub get_key : W → Str → Outcome (Option ObjectKey)
