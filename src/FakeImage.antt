-- ===== src/FakeImage.antt =====
-- fake_image_linux.go and its two companions for amd64 and arm64: the image that replaces a
-- function of the vDSO, and its extern variables.
mod Image
mod Attach
pub mod Undo
pub mod Vdso
pub mod Again
mod Tests
pub mod Extern
pub mod Stored
unfoldable pub use Image.*
unfoldable pub use Attach.*
