-- ===== src/Client/Screen.antt =====
-- What the window uses of CoreGraphics and Qt, which are not part of the repository.
use p2p_watcher.Base.{ℕ, ◌≡◌, List, length, Option, some}

pub record Screen : Type 1 where
  -- A `CGImageRef` that is not null, as `CGDisplayCreateImage` gives it.
  pub Image : Type 0
  pub width : Image → ℕ
  pub height : Image → ℕ
  pub bytes_per_row : Image → ℕ
  -- `CGBitmapContextCreate` on the bytes, for a width, a height and the bytes of a row, and
  -- `CGContextDrawImage`: what stands in the bytes then, or `none` where there is no context.
  pub draw : ℕ → ℕ → ℕ → Image → List ℕ → Option (List ℕ)
  -- `QPixmap::fromImage`, on the pixels of the QImage; `none` is a null pixmap.
  pub from_image : List ℕ → Option (List ℕ)
  -- `pixmap.scaled(ui->image->size(), Qt::KeepAspectRatio)`, for the label of the window.
  pub scaled : List ℕ → List ℕ

-- An image is drawn into the bytes that are there.
pub record IsScreen (screen : Screen) : Type 0 where
  pub draws_inside :
      (width height row : ℕ) (image : screen.Image) (bytes drawn : List ℕ)
      → screen.draw width height row image bytes ≡ some drawn
      → length drawn ≡ length bytes
