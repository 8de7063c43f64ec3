-- ===== src/Rooms/Access.antt =====
-- Who is not a member of a room neither reads nor changes anything of it.
