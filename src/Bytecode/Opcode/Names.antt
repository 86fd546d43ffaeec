-- ===== src/Bytecode/Opcode/Names.antt =====
-- src/bytecode/opcode.cpp: `opcodeName`.
use Prim.Native.String.{String}
use vxx.Prelude.{Option, none, some}
use vxx.Prelude.Int.{ℤ}
use vxx.Bytecode.Opcode.Codes.{of_raw}
use vxx.Bytecode.Opcode.{
  Opcode, op_cong, op_tru, op_nhan, op_chia, op_logic_va, op_logic_hoac, op_khong, op_so_sanh_bang,
  op_khac_bang, op_lon_hon, op_nho_hon, op_lon_hon_hoac_bang, op_nho_hon_hoac_bang, op_gan,
  op_mo_khoi, op_dong_khoi, op_mo_ngoac, op_dong_ngoac, op_mo_mang, op_dong_mang, op_dong_lenh,
  op_phay, op_neu, op_hoac, op_neu_khong, op_ket_thuc_neu, op_lap, op_khoi_tao, op_dieu_kien,
  op_cap_nhat, op_kiem_tra_sau, op_ket_thuc_lap, op_bo_qua, op_thoat, op_chuyen, op_truong_hop,
  op_mac_dinh, op_ket_thuc_chuyen, op_ham, op_goi, op_tra_ve, op_bien_so, op_in,
  op_dung_chuong_trinh, op_ten_bien_id, op_ten_bien_gia_tri, op_jump_if_false, op_jump, op_modulo,
  op_chuoi, op_phu_dinh, op_chon, op_ca, op_param, op_cong_mot, op_tru_mot, op_cong_gan, op_tru_gan,
  op_nhan_gan, op_chia_gan, op_modulo_gan, op_dung_gia_tri, op_sai_gia_tri, op_bien_so_float,
  op_nem, op_thu, op_thu_ket_thuc, op_bat_loi, op_rong_gia_tri, op_map_literal, op_goi_gian_tiep,
  op_param_mac_dinh, op_list_literal, op_doc_chi_so, op_gan_chi_so, op_tao_lop, op_them_phuong_thuc,
  op_tao_doi_tuong, op_doc_thuoc_tinh, op_gan_thuoc_tinh, op_goi_phuong_thuc, op_tao_dong_bao,
  op_vm_bien_dich_phan_tich, op_vm_dns_phan_giai, op_vm_doc_bien_moi_truong,
  op_vm_dong_ho_dia_phuong, op_vm_dong_ho_utc, op_vm_duong_dan_ton_tai, op_vm_io_doc_bytes,
  op_vm_io_doc_file, op_vm_io_ghi_bytes, op_vm_io_ghi_file, op_vm_io_ghi_tiep_file,
  op_vm_kich_ban_chay, op_vm_la_tep, op_vm_la_thu_muc_khong_theo_lien_ket, op_vm_la_thu_muc,
  op_vm_liet_ke_thu_muc, op_vm_ngau_nhien_bao_mat_bytes, op_vm_ngu_mili_giay, op_vm_so_thuc_bits,
  op_vm_socket_chap_nhan, op_vm_socket_dat_timeout, op_vm_socket_dong, op_vm_socket_gui,
  op_vm_socket_nhan, op_vm_socket_phan_giai, op_vm_socket_tcp_lang_nghe, op_vm_socket_tcp_mo,
  op_vm_socket_tls_nang_cap, op_vm_socket_udp_mo, op_vm_tao_thu_muc, op_vm_ten_nen_tang,
  op_vm_thoi_gian_don_dieu_ms, op_vm_tien_trinh_chay, op_vm_xoa_duong_dan, op_vm_thread_spawn,
  op_vm_thread_wait, op_vm_thread_cancel, op_vm_thread_status, op_vm_thread_park,
  op_vm_tuple_from_list, op_vm_type_of, op_vm_identity_hash, op_vm_length, op_vm_list_append,
  op_vm_list_remove, op_vm_map_has, op_vm_map_remove, op_vm_map_keys, op_vm_string_bytes,
  op_vm_string_from_bytes, op_vm_float_from_bits, op_ffi_call, op_vm_bytecode_chay,
  op_native_artifact_chay, op_vm_machine_file_open, op_vm_machine_file_read,
  op_vm_machine_file_write, op_vm_machine_file_close, op_vm_machine_file_seek,
  op_vm_machine_file_tell, op_vm_machine_file_error, op_vm_machine_file_remove,
  op_vm_machine_process_pid, op_vm_machine_process_ppid, op_vm_machine_process_uid,
  op_vm_machine_process_euid, op_vm_machine_process_gid, op_vm_machine_process_egid,
  op_vm_machine_time_sleep, op_vm_machine_time_monotonic, op_vm_machine_time_realtime,
  op_vm_machine_entropy_read, op_vm_machine_env_get, op_vm_machine_time_local,
  op_vm_machine_dir_mkdir, op_vm_machine_dir_remove, op_vm_machine_dir_open, op_vm_machine_dir_next,
  op_vm_machine_dir_close, op_vm_machine_path_kind, op_vm_machine_socket_kind,
  op_vm_machine_socket_close, op_vm_machine_socket_timeout, op_vm_machine_socket_send,
  op_vm_machine_socket_recv, op_vm_machine_socket_accept, op_vm_machine_socket_listen,
  op_vm_machine_socket_connect, op_vm_machine_process_new, op_vm_machine_process_arg,
  op_vm_machine_process_command_line, op_vm_machine_process_env, op_vm_machine_process_start,
  op_vm_machine_process_poll, op_vm_machine_process_read, op_vm_machine_process_wait,
  op_vm_machine_process_error, op_vm_machine_process_close, op_vm_machine_resolve_open,
  op_vm_machine_resolve_next, op_vm_machine_resolve_close, op_vm_machine_tls_upgrade,
  op_vm_machine_tls_send, op_vm_machine_tls_recv,
}

-- The labels of the switch.
unfoldable pub name_of : Opcode → String
name_of op_cong = "OP_CONG"
name_of op_tru = "OP_TRU"
name_of op_nhan = "OP_NHAN"
name_of op_chia = "OP_CHIA"
name_of op_modulo = "OP_MODULO"
name_of op_jump = "OP_JUMP"
name_of op_jump_if_false = "OP_JUMP_IF_FALSE"
name_of op_logic_va = "OP_LOGIC_VA"
name_of op_logic_hoac = "OP_LOGIC_HOAC"
name_of op_khong = "OP_KHONG"
name_of op_so_sanh_bang = "OP_SO_SANH_BANG"
name_of op_khac_bang = "OP_KHAC_BANG"
name_of op_lon_hon = "OP_LON_HON"
name_of op_nho_hon = "OP_NHO_HON"
name_of op_lon_hon_hoac_bang = "OP_LON_HON_HOAC_BANG"
name_of op_nho_hon_hoac_bang = "OP_NHO_HON_HOAC_BANG"
name_of op_gan = "OP_GAN"
name_of op_mo_khoi = "OP_MO_KHOI"
name_of op_dong_khoi = "OP_DONG_KHOI"
name_of op_mo_ngoac = "OP_MO_NGOAC"
name_of op_dong_ngoac = "OP_DONG_NGOAC"
name_of op_mo_mang = "OP_MO_MANG"
name_of op_dong_mang = "OP_DONG_MANG"
name_of op_dong_lenh = "OP_DONG_LENH"
name_of op_phay = "OP_PHAY"
name_of op_neu = "OP_NEU"
name_of op_hoac = "OP_HOAC"
name_of op_neu_khong = "OP_NEU_KHONG"
name_of op_ket_thuc_neu = "OP_KET_THUC_NEU"
name_of op_lap = "OP_LAP"
name_of op_khoi_tao = "OP_KHOI_TAO"
name_of op_dieu_kien = "OP_DIEU_KIEN"
name_of op_cap_nhat = "OP_CAP_NHAT"
name_of op_kiem_tra_sau = "OP_KIEM_TRA_SAU"
name_of op_ket_thuc_lap = "OP_KET_THUC_LAP"
name_of op_bo_qua = "OP_BO_QUA"
name_of op_thoat = "OP_THOAT"
name_of op_chuyen = "OP_CHUYEN"
name_of op_truong_hop = "OP_TRUONG_HOP"
name_of op_mac_dinh = "OP_MAC_DINH"
name_of op_ket_thuc_chuyen = "OP_KET_THUC_CHUYEN"
name_of op_ham = "OP_HAM"
name_of op_goi = "OP_GOI"
name_of op_tra_ve = "OP_TRA_VE"
name_of op_bien_so = "OP_BIEN_SO"
name_of op_ten_bien_id = "OP_TEN_BIEN_ID"
name_of op_ten_bien_gia_tri = "OP_TEN_BIEN_GIA_TRI"
name_of op_in = "OP_IN"
name_of op_chuoi = "OP_CHUOI"
name_of op_phu_dinh = "OP_PHU_DINH"
name_of op_chon = "OP_CHON"
name_of op_ca = "OP_CA"
name_of op_param = "OP_PARAM"
name_of op_dung_chuong_trinh = "OP_DUNG_CHUONG_TRINH"
name_of op_cong_mot = "OP_CONG_MOT"
name_of op_tru_mot = "OP_TRU_MOT"
name_of op_cong_gan = "OP_CONG_GAN"
name_of op_tru_gan = "OP_TRU_GAN"
name_of op_nhan_gan = "OP_NHAN_GAN"
name_of op_chia_gan = "OP_CHIA_GAN"
name_of op_modulo_gan = "OP_MODULO_GAN"
name_of op_dung_gia_tri = "OP_DUNG_GIA_TRI"
name_of op_sai_gia_tri = "OP_SAI_GIA_TRI"
name_of op_bien_so_float = "OP_BIEN_SO_FLOAT"
name_of op_nem = "OP_NEM"
name_of op_thu = "OP_THU"
name_of op_thu_ket_thuc = "OP_THU_KET_THUC"
name_of op_bat_loi = "OP_BAT_LOI"
name_of op_rong_gia_tri = "OP_RONG_GIA_TRI"
name_of op_map_literal = "OP_MAP_LITERAL"
name_of op_goi_gian_tiep = "OP_GOI_GIAN_TIEP"
name_of op_param_mac_dinh = "OP_PARAM_MAC_DINH"
name_of op_list_literal = "OP_LIST_LITERAL"
name_of op_doc_chi_so = "OP_DOC_CHI_SO"
name_of op_gan_chi_so = "OP_GAN_CHI_SO"
name_of op_tao_lop = "OP_TAO_LOP"
name_of op_them_phuong_thuc = "OP_THEM_PHUONG_THUC"
name_of op_tao_doi_tuong = "OP_TAO_DOI_TUONG"
name_of op_doc_thuoc_tinh = "OP_DOC_THUOC_TINH"
name_of op_gan_thuoc_tinh = "OP_GAN_THUOC_TINH"
name_of op_goi_phuong_thuc = "OP_GOI_PHUONG_THUC"
name_of op_tao_dong_bao = "OP_TAO_DONG_BAO"
name_of op_vm_bien_dich_phan_tich = "OP_VM_BIEN_DICH_PHAN_TICH"
name_of op_vm_bytecode_chay = "OP_VM_BYTECODE_CHAY"
name_of op_native_artifact_chay = "OP_NATIVE_ARTIFACT_CHAY"
name_of op_vm_dns_phan_giai = "OP_VM_DNS_PHAN_GIAI"
name_of op_vm_doc_bien_moi_truong = "OP_VM_DOC_BIEN_MOI_TRUONG"
name_of op_vm_dong_ho_dia_phuong = "OP_VM_DONG_HO_DIA_PHUONG"
name_of op_vm_dong_ho_utc = "OP_VM_DONG_HO_UTC"
name_of op_vm_duong_dan_ton_tai = "OP_VM_DUONG_DAN_TON_TAI"
name_of op_vm_io_doc_bytes = "OP_VM_IO_DOC_BYTES"
name_of op_vm_io_doc_file = "OP_VM_IO_DOC_FILE"
name_of op_vm_io_ghi_bytes = "OP_VM_IO_GHI_BYTES"
name_of op_vm_io_ghi_file = "OP_VM_IO_GHI_FILE"
name_of op_vm_io_ghi_tiep_file = "OP_VM_IO_GHI_TIEP_FILE"
name_of op_vm_kich_ban_chay = "OP_VM_KICH_BAN_CHAY"
name_of op_vm_la_tep = "OP_VM_LA_TEP"
name_of op_vm_la_thu_muc_khong_theo_lien_ket = "OP_VM_LA_THU_MUC_KHONG_THEO_LIEN_KET"
name_of op_vm_la_thu_muc = "OP_VM_LA_THU_MUC"
name_of op_vm_liet_ke_thu_muc = "OP_VM_LIET_KE_THU_MUC"
name_of op_vm_ngau_nhien_bao_mat_bytes = "OP_VM_NGAU_NHIEN_BAO_MAT_BYTES"
name_of op_vm_ngu_mili_giay = "OP_VM_NGU_MILI_GIAY"
name_of op_vm_so_thuc_bits = "OP_VM_SO_THUC_BITS"
name_of op_vm_socket_chap_nhan = "OP_VM_SOCKET_CHAP_NHAN"
name_of op_vm_socket_dat_timeout = "OP_VM_SOCKET_DAT_TIMEOUT"
name_of op_vm_socket_dong = "OP_VM_SOCKET_DONG"
name_of op_vm_socket_gui = "OP_VM_SOCKET_GUI"
name_of op_vm_socket_nhan = "OP_VM_SOCKET_NHAN"
name_of op_vm_socket_phan_giai = "OP_VM_SOCKET_PHAN_GIAI"
name_of op_vm_socket_tcp_lang_nghe = "OP_VM_SOCKET_TCP_LANG_NGHE"
name_of op_vm_socket_tcp_mo = "OP_VM_SOCKET_TCP_MO"
name_of op_vm_socket_tls_nang_cap = "OP_VM_SOCKET_TLS_NANG_CAP"
name_of op_vm_socket_udp_mo = "OP_VM_SOCKET_UDP_MO"
name_of op_vm_tao_thu_muc = "OP_VM_TAO_THU_MUC"
name_of op_vm_ten_nen_tang = "OP_VM_TEN_NEN_TANG"
name_of op_vm_thoi_gian_don_dieu_ms = "OP_VM_THOI_GIAN_DON_DIEU_MS"
name_of op_vm_tien_trinh_chay = "OP_VM_TIEN_TRINH_CHAY"
name_of op_vm_xoa_duong_dan = "OP_VM_XOA_DUONG_DAN"
name_of op_vm_thread_spawn = "OP_VM_THREAD_SPAWN"
name_of op_vm_thread_wait = "OP_VM_THREAD_WAIT"
name_of op_vm_thread_cancel = "OP_VM_THREAD_CANCEL"
name_of op_vm_thread_status = "OP_VM_THREAD_STATUS"
name_of op_vm_thread_park = "OP_VM_THREAD_PARK"
name_of op_vm_tuple_from_list = "OP_VM_TUPLE_FROM_LIST"
name_of op_vm_type_of = "OP_VM_TYPE_OF"
name_of op_vm_identity_hash = "OP_VM_IDENTITY_HASH"
name_of op_vm_length = "OP_VM_LENGTH"
name_of op_vm_list_append = "OP_VM_LIST_APPEND"
name_of op_vm_list_remove = "OP_VM_LIST_REMOVE"
name_of op_vm_map_has = "OP_VM_MAP_HAS"
name_of op_vm_map_remove = "OP_VM_MAP_REMOVE"
name_of op_vm_map_keys = "OP_VM_MAP_KEYS"
name_of op_vm_string_bytes = "OP_VM_STRING_BYTES"
name_of op_vm_string_from_bytes = "OP_VM_STRING_FROM_BYTES"
name_of op_vm_float_from_bits = "OP_VM_FLOAT_FROM_BITS"
name_of op_vm_machine_file_open = "OP_VM_MACHINE_FILE_OPEN"
name_of op_vm_machine_file_read = "OP_VM_MACHINE_FILE_READ"
name_of op_vm_machine_file_write = "OP_VM_MACHINE_FILE_WRITE"
name_of op_vm_machine_file_close = "OP_VM_MACHINE_FILE_CLOSE"
name_of op_vm_machine_file_seek = "OP_VM_MACHINE_FILE_SEEK"
name_of op_vm_machine_file_tell = "OP_VM_MACHINE_FILE_TELL"
name_of op_vm_machine_file_error = "OP_VM_MACHINE_FILE_ERROR"
name_of op_vm_machine_file_remove = "OP_VM_MACHINE_FILE_REMOVE"
name_of op_vm_machine_process_pid = "OP_VM_MACHINE_PROCESS_PID"
name_of op_vm_machine_process_ppid = "OP_VM_MACHINE_PROCESS_PPID"
name_of op_vm_machine_process_uid = "OP_VM_MACHINE_PROCESS_UID"
name_of op_vm_machine_process_euid = "OP_VM_MACHINE_PROCESS_EUID"
name_of op_vm_machine_process_gid = "OP_VM_MACHINE_PROCESS_GID"
name_of op_vm_machine_process_egid = "OP_VM_MACHINE_PROCESS_EGID"
name_of op_vm_machine_time_sleep = "OP_VM_MACHINE_TIME_SLEEP"
name_of op_vm_machine_time_monotonic = "OP_VM_MACHINE_TIME_MONOTONIC"
name_of op_vm_machine_time_realtime = "OP_VM_MACHINE_TIME_REALTIME"
name_of op_vm_machine_entropy_read = "OP_VM_MACHINE_ENTROPY_READ"
name_of op_vm_machine_env_get = "OP_VM_MACHINE_ENV_GET"
name_of op_vm_machine_time_local = "OP_VM_MACHINE_TIME_LOCAL"
name_of op_vm_machine_dir_mkdir = "OP_VM_MACHINE_DIR_MKDIR"
name_of op_vm_machine_dir_remove = "OP_VM_MACHINE_DIR_REMOVE"
name_of op_vm_machine_dir_open = "OP_VM_MACHINE_DIR_OPEN"
name_of op_vm_machine_dir_next = "OP_VM_MACHINE_DIR_NEXT"
name_of op_vm_machine_dir_close = "OP_VM_MACHINE_DIR_CLOSE"
name_of op_vm_machine_path_kind = "OP_VM_MACHINE_PATH_KIND"
name_of op_vm_machine_socket_kind = "OP_VM_MACHINE_SOCKET_KIND"
name_of op_vm_machine_socket_close = "OP_VM_MACHINE_SOCKET_CLOSE"
name_of op_vm_machine_socket_timeout = "OP_VM_MACHINE_SOCKET_TIMEOUT"
name_of op_vm_machine_socket_send = "OP_VM_MACHINE_SOCKET_SEND"
name_of op_vm_machine_socket_recv = "OP_VM_MACHINE_SOCKET_RECV"
name_of op_vm_machine_socket_accept = "OP_VM_MACHINE_SOCKET_ACCEPT"
name_of op_vm_machine_socket_listen = "OP_VM_MACHINE_SOCKET_LISTEN"
name_of op_vm_machine_socket_connect = "OP_VM_MACHINE_SOCKET_CONNECT"
name_of op_vm_machine_process_new = "OP_VM_MACHINE_PROCESS_NEW"
name_of op_vm_machine_process_arg = "OP_VM_MACHINE_PROCESS_ARG"
name_of op_vm_machine_process_command_line = "OP_VM_MACHINE_PROCESS_COMMAND_LINE"
name_of op_vm_machine_process_env = "OP_VM_MACHINE_PROCESS_ENV"
name_of op_vm_machine_process_start = "OP_VM_MACHINE_PROCESS_START"
name_of op_vm_machine_process_poll = "OP_VM_MACHINE_PROCESS_POLL"
name_of op_vm_machine_process_read = "OP_VM_MACHINE_PROCESS_READ"
name_of op_vm_machine_process_wait = "OP_VM_MACHINE_PROCESS_WAIT"
name_of op_vm_machine_process_error = "OP_VM_MACHINE_PROCESS_ERROR"
name_of op_vm_machine_process_close = "OP_VM_MACHINE_PROCESS_CLOSE"
name_of op_vm_machine_resolve_open = "OP_VM_MACHINE_RESOLVE_OPEN"
name_of op_vm_machine_resolve_next = "OP_VM_MACHINE_RESOLVE_NEXT"
name_of op_vm_machine_resolve_close = "OP_VM_MACHINE_RESOLVE_CLOSE"
name_of op_vm_machine_tls_upgrade = "OP_VM_MACHINE_TLS_UPGRADE"
name_of op_vm_machine_tls_send = "OP_VM_MACHINE_TLS_SEND"
name_of op_vm_machine_tls_recv = "OP_VM_MACHINE_TLS_RECV"
name_of op_ffi_call = "OP_FFI_CALL"
name_of _ = "UNKNOWN_OPCODE"

abbrev pub name_or : Option Opcode → String
name_or none = "UNKNOWN_OPCODE"
name_or (some o) = name_of o

-- opcodeName(int)
unfoldable pub opcode_name : ℤ → String
unfolding name_of
opcode_name raw = name_or (of_raw raw)
