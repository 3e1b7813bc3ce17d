-- ===== src/Tty.antt =====
-- drivers/n_tty.c, drivers/tty.c and include/levos/tty.h: a terminal with its line discipline N_TTY, on
-- the video console (of drivers/video_console.c, the reading of the output ring). A signal that is sent
-- to the foreground group is noted. What `malloc` gives the console is a list of answers.
pub mod State
pub mod Output
pub mod Input
pub mod Calls
pub mod Valid
pub mod Edit
pub mod Room
pub mod Line
pub mod Entering
pub mod Typing
pub mod Reading
mod Tests
