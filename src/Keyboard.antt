-- ===== src/Keyboard.antt =====
-- keyboard/: the keyboard backlight behind the EC, and its idle timeout.
pub mod Backlight
pub mod Timeout
