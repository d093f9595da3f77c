-- ===== src/Fat.antt =====
-- kernel/fs/fat32.c: the FAT32 reader.
mod Volume
mod Entries
mod Defs
mod Names
mod Read
mod Tests
