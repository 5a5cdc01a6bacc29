-- ===== src/Server/Handle/Admission.antt =====
-- An authenticated request for a protected route reaches its handler.
