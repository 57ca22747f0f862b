-- ===== src/DiskIo.antt =====
-- diskio.go: the goroutine that writes pieces to the files, reads blocks from them, and checks the pieces that are
-- there. A file is the list of its bytes. An error of the file system other than the end of a file ends the program
-- (`log.Fatal`) and is left out.
pub mod Files
pub mod Write
pub mod Read
pub mod Verify
pub mod Run
mod Tests
