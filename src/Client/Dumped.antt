-- ===== src/Client/Dumped.antt =====
-- The lines of `ec dump` of commands/client/fan.c, as commands/parser/parser.c reads them.
