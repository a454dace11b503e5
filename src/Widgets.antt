-- ===== src/Widgets.antt =====
-- src/core/event.h and src/core/widgets: the key events and the widgets that they drive.
pub mod Events
pub mod Menu
pub mod Checklist
pub mod Slider
pub mod Table
pub mod Calendar
pub mod TextEditor
pub mod Input
pub mod Tabs
pub mod Filter
pub mod Terminal
